-- ===== src/Orchestrator/Parallel/Order.antt =====
-- The order in which the files are done does not matter.
use core_swag.Base.{◌≡◌, refl, ap, ◌∙◌, true, false, List, [], ◌∷◌, arith, All}
use core_swag.Base.Text.{Text, text_eq, text_eq_iff}
use core_swag.Spec.{Functions}
use core_swag.Route.Domain.{Route}
use core_swag.Route.Register.{PathMap}
use core_swag.Orchestrator.Parallel.{
  FileRoutes, text_less, add_file, collect_files, insert_file, sort_files, parse_routes_parallel,
}

-- One order of done files, and another.
pub data Reordered : List FileRoutes → List FileRoutes → Type 0 where
  same : (fs : List FileRoutes) → Reordered fs fs
  keep : (f : FileRoutes) (fs gs : List FileRoutes) → Reordered fs gs → Reordered (f ∷ fs) (f ∷ gs)
  swap : (f g : FileRoutes) (fs : List FileRoutes) → Reordered (f ∷ g ∷ fs) (g ∷ f ∷ fs)
  chain : (fs gs hs : List FileRoutes) → Reordered fs gs → Reordered gs hs → Reordered fs hs

abbrev pub Differs : FileRoutes → FileRoutes → Type 0
Differs f g = text_eq f.file_path g.file_path ≡ false

-- No two files have the same path.
abbrev pub EachDiffers : List FileRoutes → Type 0
EachDiffers [] = Unit
EachDiffers (f ∷ fs) = All (Differs f) fs × EachDiffers fs

text_eq_sym : (a b : Text) → text_eq a b ≡ false → text_eq b a ≡ false
text_eq_sym a b h = ground (arith, text_eq_iff a b, text_eq_iff b a)

-- The order of texts is total on different ones, and transitive.
less_total : (a b : Text) → text_eq a b ≡ false → text_less a b ≡ true → text_less b a ≡ false
unfolding text_less text_eq
less_total a [] h l = ground arith
less_total [] (y ∷ b) h l = refl
less_total (x ∷ a) (y ∷ b) h l = ground (arith, less_total a b)

not_less : (a b : Text) → text_eq a b ≡ false → text_less a b ≡ false → text_less b a ≡ true
unfolding text_less text_eq
not_less [] [] h l = ground arith
not_less (x ∷ a) [] h l = refl
not_less [] (y ∷ b) h l = ground arith
not_less (x ∷ a) (y ∷ b) h l = ground (arith, not_less a b)

less_trans : (a b c : Text) → text_less a b ≡ true → text_less b c ≡ true → text_less a c ≡ true
unfolding text_less
less_trans a b [] h k = ground arith
less_trans a [] (z ∷ c) h k = ground arith
less_trans [] (y ∷ b) (z ∷ c) h k = refl
less_trans (x ∷ a) (y ∷ b) (z ∷ c) h k = ground (arith, less_trans a b c)

insert_swap :
    (f g : FileRoutes) (hs : List FileRoutes)
    → Differs f g
    → insert_file f (insert_file g hs) ≡ insert_file g (insert_file f hs)
unfolding insert_file
insert_swap f g [] d =
    ground (arith, less_total f.file_path g.file_path d, not_less f.file_path g.file_path d)
insert_swap f g (h ∷ hs) d = ground (
  arith,
  insert_swap f g hs d,
  less_total f.file_path g.file_path d,
  not_less f.file_path g.file_path d,
  less_trans f.file_path g.file_path h.file_path,
  less_trans g.file_path f.file_path h.file_path,
)

All-Reordered :
    (P : FileRoutes → Type 0) (fs gs : List FileRoutes) → Reordered fs gs → All P fs → All P gs
All-Reordered P _ _ (same fs) h = h
All-Reordered P _ _ (keep f fs gs r) h = (h.0, All-Reordered P fs gs r h.1)
All-Reordered P _ _ (swap f g fs) h = (h.1.0, (h.0, h.1.1))
All-Reordered P _ _ (chain fs gs hs r q) h = All-Reordered P gs hs q (All-Reordered P fs gs r h)

differ-Reordered : (fs gs : List FileRoutes) → Reordered fs gs → EachDiffers fs → EachDiffers gs
differ-Reordered _ _ (same fs) h = h
differ-Reordered _ _ (keep f fs gs r) h =
    (All-Reordered (Differs f) fs gs r h.0, differ-Reordered fs gs r h.1)
differ-Reordered _ _ (swap f g fs) h =
    ((text_eq_sym f.file_path g.file_path h.0.0, h.1.0), (h.0.1, h.1.1))
differ-Reordered _ _ (chain fs gs hs r q) h = differ-Reordered gs hs q (differ-Reordered fs gs r h)

sort-Reordered :
    (fs gs : List FileRoutes) → Reordered fs gs → EachDiffers fs → sort_files fs ≡ sort_files gs
unfolding sort_files
sort-Reordered _ _ (same fs) h = refl
sort-Reordered _ _ (keep f fs gs r) h = ap (insert_file f) (sort-Reordered fs gs r h.1)
sort-Reordered _ _ (swap f g fs) h = insert_swap f g (sort_files fs) h.0.0
sort-Reordered _ _ (chain fs gs hs r q) h =
    sort-Reordered fs gs r h ∙ sort-Reordered gs hs q (differ-Reordered fs gs r h)

-- Only the files without routes are left out.
all_added :
    (P : FileRoutes → Type 0) (f : FileRoutes) (rs : List Route) (fs : List FileRoutes)
    → P f
    → All P fs
    → All P (add_file f rs fs)
unfolding add_file
all_added P f [] fs h hs = hs
all_added P f (r ∷ rs) fs h hs = (h, hs)

all_collected :
    (P : FileRoutes → Type 0) (fs : List FileRoutes) → All P fs → All P (collect_files fs)
unfolding collect_files
all_collected P [] h = tt
all_collected P (f ∷ fs) h = all_added P f f.routes (collect_files fs) h.0 (all_collected P fs h.1)

differ_added :
    (f : FileRoutes) (rs : List Route) (fs : List FileRoutes)
    → All (Differs f) fs
    → EachDiffers fs
    → EachDiffers (add_file f rs fs)
unfolding add_file
differ_added f [] fs a h = h
differ_added f (r ∷ rs) fs a h = (a, h)

differ_collected : (fs : List FileRoutes) → EachDiffers fs → EachDiffers (collect_files fs)
unfolding collect_files
differ_collected [] h = tt
differ_collected (f ∷ fs) h =
    differ_added f f.routes (collect_files fs) (all_collected (Differs f) fs h.0)
      (differ_collected fs h.1)

add_kept :
    (f : FileRoutes) (rs : List Route) (fs gs : List FileRoutes)
    → Reordered fs gs
    → Reordered (add_file f rs fs) (add_file f rs gs)
unfolding add_file
add_kept f [] fs gs r = r
add_kept f (q ∷ qs) fs gs r = keep f fs gs r

add_swapped :
    (f g : FileRoutes) (rs qs : List Route) (fs : List FileRoutes)
    → Reordered (add_file f rs (add_file g qs fs)) (add_file g qs (add_file f rs fs))
unfolding add_file
add_swapped f g [] qs fs = same _
add_swapped f g (r ∷ rs) [] fs = same _
add_swapped f g (r ∷ rs) (q ∷ qs) fs = swap f g fs

collect-Reordered :
    (fs gs : List FileRoutes) → Reordered fs gs → Reordered (collect_files fs) (collect_files gs)
unfolding collect_files
collect-Reordered _ _ (same fs) = same (collect_files fs)
collect-Reordered _ _ (keep f fs gs r) =
    add_kept f f.routes (collect_files fs) (collect_files gs) (collect-Reordered fs gs r)
collect-Reordered _ _ (swap f g fs) = add_swapped f g f.routes g.routes (collect_files fs)
collect-Reordered _ _ (chain fs gs hs r q) =
    chain (collect_files fs) (collect_files gs) (collect_files hs) (collect-Reordered fs gs r)
      (collect-Reordered gs hs q)

-- If no two files have the same path, `parseRoutesParallel` returns the same routes in the same
-- order, the same number of them and the same paths, in whatever order the files are done.
pub parse_routes_parallel-Reordered :
    (lib : Functions) (fs gs : List FileRoutes) (ps : PathMap)
    → EachDiffers fs
    → Reordered fs gs
    → parse_routes_parallel lib fs ps ≡ parse_routes_parallel lib gs ps
unfolding parse_routes_parallel
parse_routes_parallel-Reordered lib fs gs ps d r =
    let sorted : sort_files (collect_files fs) ≡ sort_files (collect_files gs) =
      sort-Reordered (collect_files fs) (collect_files gs) (collect-Reordered fs gs r)
        (differ_collected fs d) in
    rw sorted refl
