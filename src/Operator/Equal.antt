-- ===== src/Operator/Equal.antt =====
-- `reflect.DeepEqual` on the values that the reconcilers compare. A slice is a list, where nil is the
-- empty one; a map may be nil, and its order does not matter.
use ziti_k8s_agent.Base.{
  ◌==◌, ==_refl, StringMap, lookup, ◌⊎◌, Bool, true, false, ◌&&◌, Option, none, some, List, [], ◌∷◌,
  Text, text_eq, text_eq_refl, ℤ, pos, negsuc, ◌≡◌, refl, arith, text_eq→eq, ap, and_parts,
  Bool-cases, inl, inr, sym, ◌∙◌,
}

pub record DeepEqual (A : Type 0) : Type 0 where
  pub same : A → A → Bool
  pub same_refl : (a : A) → same a a ≡ true

abbrev pub deep_equal : {A : Type 0} ⦃e : DeepEqual A⦄ → A → A → Bool
deep_equal ⦃e⦄ = e.same

pub deep_equal_refl : {A : Type 0} ⦃e : DeepEqual A⦄ (a : A) → e.same a a ≡ true
deep_equal_refl ⦃e⦄ a = e.same_refl a

-- A struct is compared field by field: `on_field` adds a field to those that `e` compares.
abbrev pub no_field : {A : Type 0} → DeepEqual A
no_field = record { same = λ a b. true; same_refl = λ a. refl }

pub both_refl : (a b : Bool) → a ≡ true → b ≡ true → (a && b) ≡ true
both_refl a b h k = rw (h, k) refl

abbrev pub on_field : {A B : Type 0} ⦃f : DeepEqual B⦄ → (A → B) → DeepEqual A → DeepEqual A
on_field ⦃f⦄ view e = record {
  same = λ a b. f.same (view a) (view b) && e.same a b;
  same_refl =
      λ a. both_refl (f.same (view a) (view a)) (e.same a a) (f.same_refl (view a)) (e.same_refl a);
}

instance abbrev pub text_equal : DeepEqual Text
text_equal = record { same = text_eq; same_refl = text_eq_refl }

abbrev pub same_bool : Bool → Bool → Bool
same_bool true b = b
same_bool false true = false
same_bool false false = true

pub same_bool_refl : (b : Bool) → same_bool b b ≡ true
same_bool_refl true = refl
same_bool_refl false = refl

instance abbrev pub bool_equal : DeepEqual Bool
bool_equal = record { same = same_bool; same_refl = same_bool_refl }

abbrev pub same_int : ℤ → ℤ → Bool
same_int (pos a) (pos b) = a == b
same_int (pos a) (negsuc b) = false
same_int (negsuc a) (pos b) = false
same_int (negsuc a) (negsuc b) = a == b

pub same_int_refl : (a : ℤ) → same_int a a ≡ true
same_int_refl (pos a) = ==_refl a
same_int_refl (negsuc a) = ==_refl a

instance abbrev pub int_equal : DeepEqual ℤ
int_equal = record { same = same_int; same_refl = same_int_refl }

module _ {A : Type 0} (e : DeepEqual A) where
  abbrev pub same_pointer : Option A → Option A → Bool
  same_pointer none none = true
  same_pointer none (some b) = false
  same_pointer (some a) none = false
  same_pointer (some a) (some b) = e.same a b

  pub same_pointer_refl : (a : Option A) → same_pointer a a ≡ true
  same_pointer_refl none = refl
  same_pointer_refl (some a) = e.same_refl a

  abbrev pub same_slice : List A → List A → Bool
  same_slice [] [] = true
  same_slice [] (b ∷ bs) = false
  same_slice (a ∷ as') [] = false
  same_slice (a ∷ as') (b ∷ bs) = e.same a b && same_slice as' bs

  pub same_slice_refl : (as' : List A) → same_slice as' as' ≡ true
  same_slice_refl [] = refl
  same_slice_refl (a ∷ as') = rw (e.same_refl a) (same_slice_refl as')

-- A pointer is compared by what it points at.
instance abbrev pub pointer_equal : {A : Type 0} ⦃e : DeepEqual A⦄ → DeepEqual (Option A)
pointer_equal ⦃e⦄ = record { same = same_pointer e; same_refl = same_pointer_refl e }

instance abbrev pub slice_equal : {A : Type 0} ⦃e : DeepEqual A⦄ → DeepEqual (List A)
slice_equal ⦃e⦄ = record { same = same_slice e; same_refl = same_slice_refl e }

-- A `map[string]string`: nil, or its entries, of which the first with a key counts.
pub data GoMap : Type 0 where
  nil_map : GoMap
  entries : StringMap → GoMap

-- `m[key]` and whether the key is there.
abbrev pub entry_of : GoMap → Text → Option Text
entry_of nil_map key = none
entry_of (entries m) key = lookup key m

-- Each key of the first list of entries has the same value in both maps.
abbrev pub agrees_on : StringMap → StringMap → StringMap → Bool
agrees_on [] a b = true
agrees_on ((k, v) ∷ keys) a b =
    same_pointer text_equal (lookup k a) (lookup k b) && agrees_on keys a b

abbrev pub same_map : GoMap → GoMap → Bool
same_map nil_map nil_map = true
same_map nil_map (entries b) = false
same_map (entries a) nil_map = false
same_map (entries a) (entries b) = agrees_on a a b && agrees_on b a b

agrees_on_refl : (keys a : StringMap) → agrees_on keys a a ≡ true
agrees_on_refl [] a = refl
agrees_on_refl ((k, v) ∷ keys) a =
    rw (same_pointer_refl text_equal (lookup k a)) (agrees_on_refl keys a)

pub same_map_refl : (m : GoMap) → same_map m m ≡ true
same_map_refl nil_map = refl
same_map_refl (entries m) = rw (agrees_on_refl m m) refl

instance abbrev pub map_equal : DeepEqual GoMap
map_equal = record { same = same_map; same_refl = same_map_refl }

-- Text pointers that are the same are equal.
same_text_pointer : (a b : Option Text) → same_pointer text_equal a b ≡ true → a ≡ b
same_text_pointer none none h = refl
same_text_pointer none (some b) h = absurd (ground arith)
same_text_pointer (some a) none h = absurd (ground arith)
same_text_pointer (some a) (some b) h = ap some (text_eq→eq a b h)

-- A key with an entry in a list on which two maps agree has one value in both.
agreed_at :
    (keys a b : StringMap) (k : Text)
    → agrees_on keys a b ≡ true
    → (lookup k keys ≡ none) ⊎ (lookup k a ≡ lookup k b)
agreed_at [] a b k h = inl refl
agreed_at ((j, v) ∷ keys) a b k h =
    let (here, rest) = and_parts (same_pointer text_equal (lookup j a) (lookup j b)) _ h in
    elim (Bool-cases (text_eq j k)) [
      | inl e ↦ inr (rw (← text_eq→eq j k e) (same_text_pointer (lookup j a) (lookup j b) here))
      | inr e ↦ rw e (agreed_at keys a b k rest)
    ]

both_absent : (x y : Option Text) → (x ≡ none) ⊎ (x ≡ y) → (y ≡ none) ⊎ (x ≡ y) → x ≡ y
both_absent x y (inl p) (inl q) = p ∙ sym q
both_absent x y (inl p) (inr q) = q
both_absent x y (inr p) q = p

-- Maps that are the same have the same entries.
pub same_map_entries :
    (a b : GoMap) → same_map a b ≡ true → (k : Text) → entry_of a k ≡ entry_of b k
same_map_entries nil_map nil_map h k = refl
same_map_entries nil_map (entries b) h k = absurd (ground arith)
same_map_entries (entries a) nil_map h k = absurd (ground arith)
same_map_entries (entries a) (entries b) h k =
    let (there, back) = and_parts (agrees_on a a b) (agrees_on b a b) h in
    both_absent (lookup k a) (lookup k b) (agreed_at a a b k there) (agreed_at b a b k back)
