-- ===== src/Collector/Again.antt =====
-- The merging of a profile into one that it was merged into already.
use kapprofiler.Base.{
  ◌≡◌, Bool, true, List, [], ◌∷◌, ◌++◌, String, ◌==◌, string_comparable, any, any-append, arith,
  ◌∙◌, length-append, slices_contains, ==_refl, ap,
}
use kapprofiler.Collector.Calls.{
  ExecCalls, OpenCalls, DnsCalls, ContainerProfile, OpenConfig, exec_event_exists, dns_event_exists,
  is_exec_call,
}
use kapprofiler.Collector.Opens.{
  is_settled, should_include_open_event_iff, is_open_call, is_open_call-own,
}
use kapprofiler.Collector.Execs.{is_exec_call_refl}
use kapprofiler.Collector.Merge.{
  merge_syscalls, merge_execs, merge_dns, merge_opens, merge_container, merge_entries,
  exec_event_of, dns_event_of, open_event_of,
}
use kapprofiler.Collector.Merged.{merge_new, merge_new-again, filtered-same}
use kapprofiler.Collector.Network.{merge_network-again}

any-keeps {ℓ} : {A : Type ℓ} (p : A → Bool) (a b : List A) → any p a ≡ true → any p (a ++ b) ≡ true
any-keeps p a b h = ground (arith, any-append p a b)

any-own {ℓ} :
    {A : Type ℓ} (p : A → Bool) (a b : List A) (x : A) → p x ≡ true → any p (a ++ x ∷ b) ≡ true
unfolding any
any-own p a b x h = ground (arith, any-append p a (x ∷ b))

merge_syscalls-again :
    (a b : List String) → merge_syscalls (merge_syscalls a b) b ≡ merge_syscalls a b
unfolding merge_syscalls merge_new slices_contains
merge_syscalls-again =
    merge_new-again (λ a s. slices_contains a s) (λ a b s h. any-keeps (λ x. x == s) a b h)
      (λ a b s. any-own (λ x. x == s) a b s (==_refl s))

merge_execs-again : (a b : List ExecCalls) → merge_execs (merge_execs a b) b ≡ merge_execs a b
unfolding merge_execs merge_new exec_event_exists
merge_execs-again =
    merge_new-again (λ a c. exec_event_exists (exec_event_of c) a)
      (λ a b c h. any-keeps (is_exec_call (exec_event_of c)) a b h)
      (λ a b c.
        any-own (is_exec_call (exec_event_of c)) a b c (is_exec_call_refl (exec_event_of c)))

merge_dns-again : (a b : List DnsCalls) → merge_dns (merge_dns a b) b ≡ merge_dns a b
unfolding merge_dns merge_new dns_event_exists
merge_dns-again =
    merge_new-again (λ a c. dns_event_exists (dns_event_of c) a)
      (λ a b c h. any-keeps (λ d. c.dns_name == d.dns_name) a b h)
      (λ a b c. any-own (λ d. c.dns_name == d.dns_name) a b c (==_refl c.dns_name))

module _ (config : OpenConfig) (mounts : List String) where
  is_open : List OpenCalls → OpenCalls → Bool
  is_open opens c = is_settled config mounts opens (open_event_of c)

  is_open-keeps :
      (a b : List OpenCalls) (c : OpenCalls) → is_open a c ≡ true → is_open (a ++ b) c ≡ true
  unfolding is_settled is_open
  is_open-keeps a b c h =
      ground (arith, any-append (is_open_call (open_event_of c)) a b, length-append a b)

  is_open-own : (a b : List OpenCalls) (c : OpenCalls) → is_open (a ++ c ∷ b) c ≡ true
  unfolding is_settled is_open
  is_open-own a b c =
      ground
        (arith, any-own (is_open_call (open_event_of c)) a b c (is_open_call-own (open_event_of c)))

  merge_opens-new :
      (a b : List OpenCalls)
      → merge_opens config mounts a b ≡ merge_new is_open is_open-keeps is_open-own a b
  unfolding merge_opens merge_new is_open
  merge_opens-new a b =
      ap (λ l. a ++ l)
        (filtered-same _ _ b (λ c. should_include_open_event_iff config mounts a (open_event_of c)))

  merge_opens-again :
      (a b : List OpenCalls)
      → merge_opens config mounts (merge_opens config mounts a b) b ≡ merge_opens config mounts a b
  merge_opens-again a b = rw (merge_opens-new a b) (
      merge_opens-new (merge_new is_open is_open-keeps is_open-own a b) b
      ∙ merge_new-again is_open is_open-keeps is_open-own a b)

  -- When a profile of a container was merged into a recorded one, merging it once more changes
  -- nothing but the capabilities.
  pub merge_container-again :
      (old new : ContainerProfile)
      → merge_container config mounts (merge_container config mounts old new) new
        ≡ record (merge_container config mounts old new) {
          capabilities =
              merge_entries
                (merge_container config mounts old new).capabilities
                []
                new.capabilities;
        }
  unfolding merge_container
  merge_container-again old new = rw (
    merge_syscalls-again old.sys_calls new.sys_calls,
    merge_execs-again old.execs new.execs,
    merge_dns-again old.dns new.dns,
    merge_opens-again old.opens new.opens,
    merge_network-again old.network_activity.incoming new.network_activity.incoming,
    merge_network-again old.network_activity.outgoing new.network_activity.outgoing,
  )
