-- ===== src/Collector/Names.antt =====
-- `GetApplicationProfileName` and what pkg/collector/collector.go looks up by such a name.
use kapprofiler.Base.{String, ◌==◌, string_comparable, if◌then◌else◌, to_lower}
use Prim.Native.String.{◌++◌ as joined}

unfoldable pub get_application_profile_name : String → String → String → String → String
unfolding to_lower
get_application_profile_name store namespace kind name =
    let own = joined (to_lower kind) (joined "-" (to_lower name)) in
    if store == "" then own else joined own (joined "-" namespace)
