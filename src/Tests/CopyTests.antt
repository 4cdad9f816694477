-- ===== src/Tests/CopyTests.antt =====
-- Two images that share the layer "d", which the destination lacks at first.
use oci_tool.Prelude.{◌≡◌, ◌+◌, ◌≤◌, refl, true, false, [], ◌∷◌, Text, text_beq, codes, All}
use oci_tool.Copy.Layers.{
  mem, seeking, chosen, Copying, scanning, scan, claim, release, start, pick, drop, spawn, deliver,
  finish, Reach, here, next, Loop, waiting,
}
use oci_tool.Copy.Layers.Counts.{count, claims}
use oci_tool.Copy.Layers.Single.{Reach-single, Reach-complete}

abbrev d : Text
d = codes "d"

abbrev first : Loop
first = record { wanted = d ∷ []; layers = d ∷ []; phase = chosen true [] d [] }

abbrev second : Loop
second = waiting (d ∷ [])

abbrev found : Loop
found = record second { phase = scanning [] (d ∷ []) }

abbrev searching : Copying
searching = record { blobs = []; working = []; jobs = []; loops = found ∷ second ∷ [] }

abbrev picked : Copying
picked = record { blobs = []; working = d ∷ []; jobs = []; loops = first ∷ second ∷ [] }

abbrev at_end : Copying
at_end = record {
  blobs = d ∷ [];
  working = [];
  jobs = [];
  loops = record first { layers = []; phase = seeking } ∷ second ∷ [];
}

picks : Reach [] ((d ∷ []) ∷ (d ∷ []) ∷ []) picked
unfolding claim codes
picks =
    next (next here (scan (start [] ((d ∷ []) ∷ (d ∷ []) ∷ [])) [] (second ∷ []) second refl refl))
      (pick searching [] (second ∷ []) found [] [] d refl refl refl)

abbrev fetching : Copying
fetching = record picked { jobs = d ∷ []; loops = second ∷ second ∷ [] }

abbrev delivered : Copying
delivered = record fetching { blobs = d ∷ [] }

abbrev ended : Copying
ended = record delivered { jobs = []; working = [] }

copies : Reach [] ((d ∷ []) ∷ (d ∷ []) ∷ []) at_end
unfolding claim codes release text_beq
copies =
    next
      (next
        (next
          (next
            (next (next picks (spawn picked [] (second ∷ []) first true [] [] d refl refl refl))
              (deliver fetching [] [] d refl))
            (finish delivered [] [] d refl))
          (scan ended [] (second ∷ []) second refl refl))
        (pick (record ended { loops = found ∷ second ∷ [] }) [] (second ∷ []) found [] [] d refl
          refl refl))
      (drop (record at_end { loops = record first { phase = chosen false [] d [] } ∷ second ∷ [] })
        [] (second ∷ []) (record first { phase = chosen false [] d [] }) false [] [] d refl refl
        refl)

Reach-single_example :
    (count d picked.working ≡ count d picked.jobs + claims d picked.loops)
    × (count d picked.working ≤ 1)
Reach-single_example = Reach-single picks d

Reach-complete_example : All (λ x. mem x at_end.blobs ≡ true) (d ∷ [])
Reach-complete_example =
    Reach-complete copies [] (second ∷ []) (record first { layers = []; phase = seeking }) refl refl
