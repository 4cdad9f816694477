-- ===== src/Registry/Fetch/Told.antt =====
-- What `fetchBlob` of a registry does to the state of its callback.
use oci_tool.Prelude.{
  ℕ, zero, suc, Bool, false, not, Option, none, some, List, Text, Exec, bind-keeps, pure,
  Bool-cases, inl, inr,
}
use oci_tool.Json.{JsonLib}
use oci_tool.Registry.Net.{Net, Server, Request, Response}
use oci_tool.Registry.Auth.{Client, auth_headers}
use oci_tool.Registry.Fetch.{
  Place, aside, locate, get_blob, try_get, unless_answered, get_loop, is_fetched, fetch_from,
  unredirected, fetch_blob,
}

module _ (J : JsonLib) (N : Net J) where
  -- A Get touches the state of its callback by calls of the callback alone.
  abbrev pub IsTelling : Type 1
  IsTelling =
      (S : Type 0) (P : S → Type 0) (call_back : List ℕ → Exec S Bool) (s : Server) (q : Request)
      (x : N.World × S)
      → ((part : List ℕ) (y : S) → P y → P (call_back part y).1)
      → P x.1
      → P (N.fetch s q call_back x).1.1

  module _ (tells : IsTelling) {S : Type 0} (P : S → Type 0) (call_back : List ℕ → Exec S Bool)
      (keeps : (part : List ℕ) (y : S) → P y → P (call_back part y).1) where
    abbrev Holds : Client J N × S → Type 0
    Holds x = P x.1

    try_get-Holds :
        (p : Place J N) (x : Client J N × S) → Holds x → Holds (try_get J N p call_back x).1
    unfolding try_get get_blob
    try_get-Holds p x h =
        bind-keeps Holds (aside J N (auth_headers J N)) (get_blob J N p call_back) x h
          λ hs. tells S P call_back p.0 _ _ keeps h

    get_loop-Holds :
        (n : ℕ) (p : Place J N) (x : Client J N × S)
        → Holds x
        → Holds (get_loop J N n p call_back x).1
    unfolding get_loop
    get_loop-Holds zero p x h = try_get-Holds p x h
    get_loop-Holds (suc n) p x h =
        bind-keeps Holds (try_get J N p call_back) _ x (try_get-Holds p x h) (
          after (get_loop J N n p call_back) (λ y k. get_loop-Holds n p y k) _
            (try_get-Holds p x h))
      where
        after :
            (again : Exec (Client J N × S) (Option Response))
            → ((y : Client J N × S) → Holds y → Holds (again y).1)
            → (y : Client J N × S) → Holds y
            → (r : Option Response) → Holds (unless_answered J N again r y).1
        after again keep y k none = keep y k
        after again keep y k (some r) = k

    pub fetch_blob-tells :
        (fuel : ℕ) (rsrc sha : Text) (x : Client J N × S)
        → P x.1
        → P (fetch_blob J N fuel rsrc sha call_back x).1.1
    unfolding fetch_blob fetch_from unredirected
    fetch_blob-tells fuel rsrc sha (c, s) h =
        let c' = record c { follow = false } in
        bind-keeps Holds (aside J N (locate J N fuel rsrc sha)) (λ p. fetch_from J N p call_back)
          (c', s) h λ p. from_place p _ h
      where
        from_place :
            (p : Option (Place J N)) (y : Client J N × S)
            → Holds y
            → Holds (fetch_from J N p call_back y).1
        from_place none y k = k
        from_place (some p) y k = elim (Bool-cases (not (N.is_valid p.0))) [
          | inl bad ↦ rw bad k
          | inr valid ↦ rw valid (
              bind-keeps Holds (get_loop J N 2 p call_back) (λ res. pure (is_fetched J N res)) y
                (get_loop-Holds 2 p y k) λ res. get_loop-Holds 2 p y k)
        ]
