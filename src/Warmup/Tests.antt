-- ===== src/Warmup/Tests.antt =====
-- The claims on the exercises at concrete inputs.
use ece344_operating_systems.Warmup.Cpr.{
  Listing, entry, directory, regular, bytes, failed, eof, end, main, folder, node, file, empty,
}
use ece344_operating_systems.Warmup.Cpr.Image.{image, is_copyable}
use ece344_operating_systems.Warmup.Cpr.Copies.{main-image}
use ece344_operating_systems.Http.Result.{ok}
use ece344_operating_systems.Warmup.Wc.{Wc, wc_init}
use ece344_operating_systems.Warmup.Wc.Scan.{Counts, wc_init-counts}
use ece344_operating_systems.Base.{List, ◌≡◌, some, ℕ, ◌∷◌, [], refl, true, none}

-- "ab c ab c".
abbrev text : List ℕ
text = 97 ∷ 98 ∷ 32 ∷ 99 ∷ 32 ∷ 97 ∷ 98 ∷ 32 ∷ 99 ∷ []

wc_init-counts_example : (wc : Wc) × (wc_init 0 text ≡ some wc) × Counts text wc
wc_init-counts_example = wc_init-counts text refl

-- "/src" holds ".", the file "a" of two reads with an interrupted one between, "..", and the
-- directory "d" with an empty file "b".
abbrev source : Listing
source = entry (directory (46 ∷ []) 493 true end) (
    entry (regular (97 ∷ []) 33188 (some (bytes 1 (2 ∷ []) (failed (bytes 3 [] eof))))) (
      entry (directory (46 ∷ 46 ∷ []) 493 true end) (
        entry (directory (100 ∷ []) 16832 true (entry (regular (98 ∷ []) 33152 (some eof)) end))
          end)))

main-image_example :
    main 3 16877 true source none
    ≡ ok (
        folder
          (node
            (97 ∷ [])
            (file (1 ∷ 2 ∷ 3 ∷ []) 420)
            (node (100 ∷ []) (folder (node (98 ∷ []) (file [] 384) empty) 448) empty))
          493)
unfolding image is_copyable
main-image_example = main-image 16877 source refl
