-- ===== src/Tests/Files.antt =====
-- The theorems about paths at concrete inputs.
use cc_base.Base.{true, false, not, ◌&&◌, some, [], ◌∷◌, ◌++◌, ◌≡◌, ◌≢◌, ◌↔◌, refl}
use cc_base.Cstring.{Bytes, codes, strchr, slash, dot, starts_with}
use cc_base.Cstring.Laws.{Lacks, strchr-Lacks}
use cc_base.Paths.{make_path_abs_rec, make_path_abs, make_path_abs_from}
use cc_base.Paths.Absolute.{Resolves, anchored, make_path_abs-Resolves}
use cc_base.Tests.Machine.{disk}

make_path_abs-Resolves_example : (make_path_abs disk (codes "a.c") true ≡ some (codes "/w/a.c")) ↔ (
    ((true && not (disk.access (codes "a.c"))) ≡ false)
    × (a : Bytes) × (anchored disk (codes "a.c") ≡ some a)
    × Resolves disk a (codes "/w/a.c"))
make_path_abs-Resolves_example = make_path_abs-Resolves disk (codes "a.c") (codes "/w/a.c") true

relative_path : make_path_abs disk (codes "a.c") false ≡ some (codes "/w/a.c")
unfolding make_path_abs make_path_abs_rec make_path_abs_from starts_with
relative_path = refl

base_name : Lacks slash (codes "b.C")
unfolding strchr
base_name = strchr-Lacks (codes "b.C") slash refl

no_dot : Lacks dot (codes "C")
unfolding strchr
no_dot = strchr-Lacks (codes "C") dot refl

some_base : codes "b.C" ≢ []
some_base = cc

no_dot_in_name : Lacks dot (codes "d" ++ slash ∷ codes "Makefile")
unfolding strchr
no_dot_in_name = strchr-Lacks (codes "d/Makefile") dot refl
