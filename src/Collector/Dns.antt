-- ===== src/Collector/Dns.antt =====
-- The DNS answers of a profile, against the events that it was made of.
use kapprofiler.Base.{
  sym, ◌≡◌, refl, Bool, true, false, String, Option, none, some, List, [], ◌∷◌, ◌++◌,
  string_comparable, ◌==◌, any, if◌then◌else◌, arith, ◌∙◌,
}
use kapprofiler.Tracing.Events.{DnsEvent}
use kapprofiler.Collector.Calls.{DnsCalls, dns_event_exists}
use kapprofiler.Collector.Build.{add_dns}

-- The addresses that are recorded first for a name.
unfoldable pub addresses_of : String → List DnsCalls → Option (List String)
addresses_of name [] = none
addresses_of name (c ∷ cs) = if c.dns_name == name then some c.addresses else addresses_of name cs

-- The addresses of the first event for a name.
unfoldable pub first_answer : String → List DnsEvent → Option (List String)
first_answer name [] = none
first_answer name (e ∷ es) = if e.dns_name == name then some e.addresses else first_answer name es

abbrev first_of : Option (List String) → Option (List String) → Option (List String)
first_of none o = o
first_of (some addresses) o = some addresses

abbrev is_there : Option (List String) → Bool
is_there none = false
is_there (some addresses) = true

addresses_of-append :
    (name : String) (dns : List DnsCalls) (c : DnsCalls)
    → addresses_of name (dns ++ c ∷ [])
      ≡ first_of (addresses_of name dns) (if c.dns_name == name then some c.addresses else none)
unfolding addresses_of
addresses_of-append name [] c = refl
addresses_of-append name (d ∷ ds) c = ground (arith, addresses_of-append name ds c)

dns_event_exists-addresses_of :
    (e : DnsEvent) (dns : List DnsCalls)
    → dns_event_exists e dns ≡ is_there (addresses_of e.dns_name dns)
unfolding dns_event_exists any addresses_of
dns_event_exists-addresses_of e [] = refl
dns_event_exists-addresses_of e (d ∷ ds) = ground (
  arith,
  dns_event_exists-addresses_of e ds,
  string_comparable.equal_iff e.dns_name d.dns_name,
  string_comparable.equal_iff d.dns_name e.dns_name,
)

add_dns-step :
    (name : String) (dns : List DnsCalls) (e : DnsEvent) (es : List DnsEvent)
    → first_of
        (addresses_of name (
          if dns_event_exists e dns
          then dns
          else dns ++ record { dns_name = e.dns_name; addresses = e.addresses } ∷ []))
        (first_answer name es)
      ≡ first_of (addresses_of name dns) (first_answer name (e ∷ es))
unfolding first_answer
add_dns-step name dns e es = ground (
  arith,
  addresses_of-append name dns (record { dns_name = e.dns_name; addresses = e.addresses }),
  dns_event_exists-addresses_of e dns,
  string_comparable.equal_iff e.dns_name name,
)

first_of-none : (o : Option (List String)) → first_of o none ≡ o
first_of-none none = refl
first_of-none (some addresses) = refl

addresses_of-add_dns :
    (name : String) (dns : List DnsCalls) (es : List DnsEvent)
    → addresses_of name (add_dns dns es) ≡ first_of (addresses_of name dns) (first_answer name es)
unfolding add_dns first_answer
addresses_of-add_dns name dns [] = sym (first_of-none (addresses_of name dns))
addresses_of-add_dns name dns (e ∷ es) =
    addresses_of-add_dns name
      (if dns_event_exists e dns
        then dns
        else dns ++ record { dns_name = e.dns_name; addresses = e.addresses } ∷ [])
      es
    ∙ add_dns-step name dns e es

-- In the profile that is made of some events, the addresses recorded for a name are those of its
-- first event: the addresses of later events are not recorded.
pub add_dns-first_answer :
    (name : String) (es : List DnsEvent) → addresses_of name (add_dns [] es) ≡ first_answer name es
unfolding addresses_of
add_dns-first_answer name es = addresses_of-add_dns name [] es
