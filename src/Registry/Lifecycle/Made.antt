-- ===== src/Registry/Lifecycle/Made.antt =====
-- What the constructor of a registry client, src/lib/OCI/Registry/Client.cpp, leaves behind.
use oci_tool.Prelude.{
  ◌≡◌, refl, ap, sym, ◌>>◌, modify, text_beq, Bool, true, false, none, some, [], Text, Exec,
  Outcome, returns,
}
use oci_tool.Json.{JsonLib}
use oci_tool.Registry.Location.{domain_of}
use oci_tool.Registry.Location.Laws.{domain_of-some}
use oci_tool.Registry.Net.{Net}
use oci_tool.Registry.Auth.{Client, blank, via}
use oci_tool.Registry.Queries.{ping}
use oci_tool.Registry.Lifecycle.{
  new_client, construct, copy_of, read_proxy, proxy_value, probe, fall_back, server_of,
}

module _ (J : JsonLib) (N : Net J) where
  -- What the constructor has done, when it knew the domain.
  record IsMade (domain : Text) (o : Outcome (Unit {0})) (c : Client J N) : Type 0 where
    returned : o ≡ returns tt
    named : c.domain ≡ domain
    same_server : (copy_of J N c).cli ≡ c.cli
    follows : c.follow ≡ true

  -- A client of the secure port, after its `ping`.
  abbrev pinged : Text → N.World → Client J N
  pinged d w = record (blank J N w) { domain = d; cli = server_of J N true none d }

  settle : Bool → Exec (Client J N) (Unit {0})
  settle answered = fall_back J N answered >> modify (λ c. record c { follow = true })

  settle-IsMade :
      (answered : Bool) (d : Text) (w : N.World)
      → IsMade d (settle answered (pinged d w)).0 (settle answered (pinged d w)).1
  unfolding settle fall_back copy_of via text_beq ping
  settle-IsMade true d w = record {
    returned = refl;
    named = refl;
    same_server = refl;
    follows = refl;
  }
  settle-IsMade false d w = record {
    returned = refl;
    named = refl;
    same_server = refl;
    follows = refl;
  }

  probe-IsMade :
      (d : Text) (w : N.World)
      → IsMade d
          (probe J N (record (blank J N w) { domain = d })).0
          (probe J N (record (blank J N w) { domain = d })).1
  unfolding probe ping settle via text_beq
  probe-IsMade d w = settle-IsMade _ d _

  -- Where the environment names no proxy, the constructor of a registry client returns for each
  -- location and whatever the network answers, also where nobody does; the client then follows
  -- redirects, has the domain of the location, and a copy of it talks to the same server.
  pub new_client-unproxied :
      (location : Text) (w : N.World)
      → proxy_value J N ≡ []
      → ((new_client J N location w).0 ≡ returns tt)
        × (domain_of location ≡ some (new_client J N location w).1.domain)
        × ((copy_of J N (new_client J N location w).1).cli ≡ (new_client J N location w).1.cli)
        × ((new_client J N location w).1.follow ≡ true)
  unfolding new_client construct read_proxy text_beq
  new_client-unproxied location w unset =
      let (d, at) = domain_of-some location in
      let m = probe-IsMade d w in
      rw (at, unset) (m.returned, ap some (sym m.named), m.same_server, m.follows)
