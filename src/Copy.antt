-- ===== src/Copy.antt =====
-- OCI::Copy, include/OCI/Copy.hpp and src/lib/OCI/Copy.cpp: its members, and the calls that it makes of
-- the two clients.
pub mod Layers
pub mod Images
pub mod Lists
use oci_tool.Prelude.{
  ℕ, Bool, true, false, List, Text, Exec, Exception, runtime_error, filesystem_error, parse_error,
  json_error, logic_error, null_result, Outcome, returns, throws, diverges, continue_with,
}
use oci_tool.BaseClient.{BaseClient}
use oci_tool.Schema2.{ImageManifest}

-- Does `catch( std::runtime_error )` take it?
abbrev pub is_runtime : Exception → Bool
is_runtime (runtime_error t) = true
is_runtime filesystem_error = true
is_runtime parse_error = false
is_runtime json_error = false
is_runtime logic_error = false
is_runtime null_result = false

module _ (src dest : BaseClient) where
  -- `src_`, `dest_` and `working_digests_`, and the worlds of the two clients.
  pub record Copier : Type 0 where
    pub source : src.Obj
    pub destination : dest.Obj
    pub from : src.World
    pub to : dest.World
    pub working : List Text

  -- A function of Copy with its local copies of the clients.
  pub record Run : Type 0 where
    pub source : src.Obj
    pub destination : dest.Obj
    pub copier : Copier

  abbrev pub Calls : Type 0 → Type 0
  Calls A = Exec Copier A

  abbrev pub Runs : Type 0 → Type 0
  Runs A = Exec Run A

  abbrev pub copy_source : Calls src.Obj
  copy_source c = let (o, w) = src.copy c.source c.from in (o, record c { from = w })

  abbrev pub copy_destination : Calls dest.Obj
  copy_destination c = let (o, v) = dest.copy c.destination c.to in (o, record c { to = v })

  -- A method of a copy that lives for this call alone.
  abbrev pub on_source : {A : Type 0} → Exec (src.Obj × src.World) A → src.Obj → Calls A
  on_source m s c = let (o, (s', w)) = m (s, c.from) in (o, record c { from = src.destroy s' w })

  abbrev pub on_destination : {A : Type 0} → Exec (dest.Obj × dest.World) A → dest.Obj → Calls A
  on_destination m d c = let (o, (d', v)) = m (d, c.to) in (o, record c { to = dest.destroy d' v })

  abbrev pub with_source : {A : Type 0} → Exec (src.Obj × src.World) A → Calls A
  with_source m c = continue_with (copy_source c).0 (copy_source c).1 (on_source m)

  abbrev pub with_destination : {A : Type 0} → Exec (dest.Obj × dest.World) A → Calls A
  with_destination m c =
      continue_with (copy_destination c).0 (copy_destination c).1 (on_destination m)

  -- The local copies end with the function, the last one first.
  abbrev pub leave : Run → Copier
  leave r = record (r.copier) {
    from = src.destroy r.source r.copier.from;
    to = dest.destroy r.destination r.copier.to;
  }

  abbrev pub run : {A : Type 0} → Runs A → src.Obj → dest.Obj → Calls A
  run m s d c = let (o, r) = m (record { source = s; destination = d; copier = c }) in (o, leave r)

  abbrev pub ask : {A : Type 0} → Exec (dest.Obj × dest.World) A → Runs A
  ask m r =
      let (o, (d, v)) = m (r.destination, r.copier.to) in
      (o, record r { destination = d; copier = record (r.copier) { to = v } })

  -- A call inside of a function that has local copies.
  abbrev pub inside : {A : Type 0} → Calls A → Runs A
  inside m r = let (o, c) = m r.copier in (o, record r { copier = c })

  abbrev pub caught : {A : Type 0} → A → Outcome A → Outcome A
  caught a (throws e) = elim (is_runtime e) [ true ↦ returns a | false ↦ throws e ]
  caught a o = o

  -- `try { … } catch( std::runtime_error )`, with the value that is returned after it.
  abbrev pub catch_runtime : {S A : Type 0} → A → Exec S A → Exec S A
  catch_runtime a m s = (caught a (m s).0, (m s).1)
