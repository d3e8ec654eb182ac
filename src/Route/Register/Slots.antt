-- ===== src/Route/Register/Slots.antt =====
-- Reading and writing the operation at a method and a path.
use core_swag.Base.{
  ◌≡◌, refl, true, false, [], ◌∷◌, Option, none, some, if◌then◌else◌, arith, Bool, ◌&&◌,
}
use core_swag.Base.Text.{Text, text_eq, text_eq_iff}
use core_swag.Spec.{Operation, PathItem}
use core_swag.Route.Domain.{Route}
use core_swag.Route.Register.{
  Slot, get, post, delete, put, patch, head, options, ref_route_method_op, read, write, PathMap,
  lookup_path, set_path, item_at,
}

abbrev pub same_slot : Slot → Slot → Bool
same_slot get get = true
same_slot post post = true
same_slot delete delete = true
same_slot put put = true
same_slot patch patch = true
same_slot head head = true
same_slot options options = true
same_slot _ _ = false

-- The operation that a method has at a path.
unfoldable pub operation_at : Slot → Text → PathMap → Option Operation
operation_at s path ps = read s (item_at path ps)

pub read-write :
    (s t : Slot) (o : Operation) (i : PathItem)
    → read s (write t o i) ≡ (if same_slot t s then some o else read s i)
unfolding read write
read-write get get o i = refl
read-write post post o i = refl
read-write delete delete o i = refl
read-write put put o i = refl
read-write patch patch o i = refl
read-write head head o i = refl
read-write options options o i = refl
read-write _ _ o i = refl

pub item_at-set_path :
    (path q : Text) (item : PathItem) (ps : PathMap)
    → item_at q (set_path path item ps) ≡ (if text_eq path q then item else item_at q ps)
unfolding item_at set_path lookup_path
item_at-set_path path q item [] = ground arith
item_at-set_path path q item ((k, i) ∷ ps) = ground (
  arith,
  item_at-set_path path q item ps,
  text_eq_iff k path,
  text_eq_iff k q,
  text_eq_iff path q,
)

-- A route of this method and path.
unfoldable pub declares : Slot → Text → Route → Bool
declares s q r =
    elim (ref_route_method_op r.method) [ none ↦ false | some t ↦ same_slot t s ]
    && text_eq r.path q

-- Setting the operation of a route changes its own place only.
pub operation_at-set :
    (s t : Slot) (path q : Text) (o : Operation) (ps : PathMap)
    → operation_at s q (set_path path (write t o (item_at path ps)) ps)
      ≡ (if same_slot t s && text_eq path q then some o else operation_at s q ps)
unfolding operation_at
operation_at-set s t path q o ps = ground (
  arith,
  item_at-set_path path q (write t o (item_at path ps)) ps,
  read-write s t o (item_at path ps),
  text_eq_iff path q,
)

pub same_slot_iff : (s t : Slot) → same_slot s t ≡ true → s ≡ t
same_slot_iff get get h = refl
same_slot_iff post post h = refl
same_slot_iff delete delete h = refl
same_slot_iff put put h = refl
same_slot_iff patch patch h = refl
same_slot_iff head head h = refl
same_slot_iff options options h = refl
same_slot_iff _ _ h = cc

pub same_slot_refl : (s : Slot) → same_slot s s ≡ true
same_slot_refl get = refl
same_slot_refl post = refl
same_slot_refl delete = refl
same_slot_refl put = refl
same_slot_refl patch = refl
same_slot_refl head = refl
same_slot_refl options = refl
