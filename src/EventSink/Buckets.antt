-- ===== src/EventSink/Buckets.antt =====
-- The buckets' names do not tell every two containers apart.
use text.Mathlib.TextLemmas.{append_assoc}
use Prim.Native.String.{String, ◌++◌}
use kapprofiler.Base.{◌≡◌}
use kapprofiler.EventSink.Defs.{bucket_of}

-- A namespace or a pod's name may hold a dash, so that a pod `b-c` of the namespace `a` and a pod
-- `c` of the namespace `a-b` share their buckets, whatever the names are.
pub bucket_of-ambiguous :
    (kind a b c container : String)
    → bucket_of kind (a ++ "-" ++ b) c container ≡ bucket_of kind a (b ++ "-" ++ c) container
unfolding bucket_of
bucket_of-ambiguous kind a b c container = simp append_assoc
