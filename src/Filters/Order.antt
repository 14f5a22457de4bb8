-- ===== src/Filters/Order.antt =====
-- The order in which filters of different names are added does not matter.
use mathlib.Core.Option
use mathlib.Core.List.{Permᴰ}
use preconfs_client.Prelude.{
  ℕ, ◌+◌, ◌≤◌, ◌≡◌, ◌⊎◌, refl, sym, ap, ap₂, subst, ◌∙◌, false, Option, none, some, List, [], ◌∷◌,
  Text, text_eq, text_eq_iff, length, ok, All, arith, if◌then◌else◌,
}
use preconfs_client.HashMap
use preconfs_client.Feed.{Region}
use preconfs_client.Proto.{SubscribeRequest}
use preconfs_client.InstructionFilter.Bounds.{u32_max}
use preconfs_client.Filter.{Filter, into_proto as filter_into_proto}
use preconfs_client.Filter.Limits.{HasU32, InLimits}
use preconfs_client.Filters.{Filters, into_request}
use preconfs_client.Filters.Request.{instructions_in, or_else, last_named, AllU32, IsServable}
use preconfs_client.Filters.Verdict.{into_request-IsRequestOf, into_request_iff}

length-Perm : {A : Type 0} {xs ys : List A} → Permᴰ xs ys → length xs ≡ length ys
length-Perm Permᴰ.nil = refl
length-Perm (Permᴰ.cons e p) = omega (arith, length-Perm p)
length-Perm (Permᴰ.swap d e) = refl
length-Perm (Permᴰ.trans p q) = length-Perm p ∙ length-Perm q

pub All-Perm : {A : Type 0} (P : A → Type 0) {xs ys : List A} → Permᴰ xs ys → All P xs → All P ys
All-Perm P Permᴰ.nil h = h
All-Perm P (Permᴰ.cons e p) h = (subst P e h.0, All-Perm P p h.1)
All-Perm P (Permᴰ.swap d e) h = (subst P e h.1.0, (subst P d h.0, h.1.1))
All-Perm P (Permᴰ.trans p q) h = All-Perm P q (All-Perm P p h)

or_else_swap :
    {A : Type 0} (o x y : Option A)
    → (x ≡ none) ⊎ (y ≡ none)
    → or_else (or_else o x) y ≡ or_else (or_else o y) x
or_else_swap (some a) x y h = refl
or_else_swap none none none h = refl
or_else_swap none none (some b) h = refl
or_else_swap none (some a) none h = refl
or_else_swap none (some a) (some b) h = ground arith

differ_sym : (a b : Text) → text_eq a b ≡ false → text_eq b a ≡ false
differ_sym a b h = ground (arith, text_eq_iff a b, text_eq_iff b a)

module _ {F : Type 0} where
  -- Entries of different names.
  abbrev pub Distinct : List (Text × F) → Type 0
  Distinct [] = Unit
  Distinct (f ∷ fs) = All (λ g. text_eq f.0 g.0 ≡ false) fs × Distinct fs

  pub Distinct-Perm : {fs gs : List (Text × F)} → Permᴰ fs gs → Distinct fs → Distinct gs
  Distinct-Perm Permᴰ.nil h = h
  Distinct-Perm (Permᴰ.cons {a} {b} {l₁} {l₂} e p) h = (
    subst (λ (x : Text × F). All (λ g. text_eq x.0 g.0 ≡ false) l₂) e
        (All-Perm (λ g. text_eq a.0 g.0 ≡ false) p h.0),
    Distinct-Perm p h.1,
  )
  Distinct-Perm (Permᴰ.swap {a} {b} {a'} {b'} {l} d e) h =
      subst (λ (x : Text × F). Distinct (a' ∷ x ∷ l)) d
        (subst (λ (x : Text × F). Distinct (x ∷ a ∷ l)) e
          ((differ_sym a.0 b.0 h.0.0, h.1.0), (h.0.1, h.1.1)))
  Distinct-Perm (Permᴰ.trans p q) h = Distinct-Perm q (Distinct-Perm p h)

  -- The value of an entry, if it is under the name.
  abbrev pick : Text → Text × F → Option F
  pick k f = if text_eq f.0 k then some f.1 else none

  pick_once :
      (k : Text) (f g : Text × F) → text_eq f.0 g.0 ≡ false → (pick k g ≡ none) ⊎ (pick k f ≡ none)
  pick_once k f g h = ground (arith, text_eq_iff f.0 k, text_eq_iff g.0 k, text_eq_iff f.0 g.0)

module _ {Pubkey Signature : Type 0} where
  last_named-Perm :
      (k : Text) {fs gs : List (Text × Filter Pubkey Signature)}
      → Permᴰ fs gs
      → Distinct fs
      → last_named k fs ≡ last_named k gs
  unfolding last_named
  last_named-Perm k Permᴰ.nil h = refl
  last_named-Perm k (Permᴰ.cons e p) h = ap₂ or_else (last_named-Perm k p h.1) (ap (pick k) e)
  last_named-Perm k (Permᴰ.swap {a} {b} {a'} {b'} {l} d e) h =
      or_else_swap (last_named k l) (pick k b) (pick k a) (pick_once k a b h.0.0)
      ∙ ap₂ (λ x y. or_else (or_else (last_named k l) (pick k x)) (pick k y)) d e
  last_named-Perm k (Permᴰ.trans p q) h =
      last_named-Perm k p h ∙ last_named-Perm k q (Distinct-Perm p h)

  instructions_in-Perm :
      {fs gs : List (Text × Filter Pubkey Signature)}
      → Permᴰ fs gs
      → instructions_in fs ≡ instructions_in gs
  instructions_in-Perm Permᴰ.nil = refl
  instructions_in-Perm (Permᴰ.cons e p) =
      ap₂ ◌+◌ (ap (λ f. length f.1.instructions) e) (instructions_in-Perm p)
  instructions_in-Perm (Permᴰ.swap d e) =
      let a = ap (λ f. length f.1.instructions) d in
      let b = ap (λ f. length f.1.instructions) e in omega arith
  instructions_in-Perm (Permᴰ.trans p q) = instructions_in-Perm p ∙ instructions_in-Perm q

  IsServable-Perm :
      (fs gs : Filters Pubkey Signature)
      → Permᴰ fs.filters gs.filters
      → IsServable fs
      → IsServable gs
  IsServable-Perm fs gs p h =
      let same = length-Perm p in
      let count = instructions_in-Perm p in
      let some_there = h.some_filter in
      let few = h.few_filters in
      let few' = h.few_instructions in
      record {
        some_filter = omega arith;
        few_filters = omega arith;
        few_instructions = omega arith;
        each = All-Perm (λ f. InLimits f.0 f.1) p h.each;
      }

module _ {Pubkey Signature : Type 0} (usize_max : ℕ) (wide : u32_max ≤ usize_max)
    (key : Pubkey → Text) (sig : Signature → Text) (fs gs : Filters Pubkey Signature)
    (region : Region) where
  -- Filters of different names, of u32 fields, that make a request make one in any other order too, and
  -- the two requests have the same filter under each name.
  pub into_request-Perm :
      (request : SubscribeRequest)
      → AllU32 fs
      → Distinct fs.filters
      → Permᴰ fs.filters gs.filters
      → into_request usize_max key sig fs region ≡ ok request
      → (other : SubscribeRequest) × (into_request usize_max key sig gs region ≡ ok other)
        × ((k : Text) → HashMap.get k request.transactions ≡ HashMap.get k other.transactions)
  into_request-Perm request u distinct p built =
      let u' = All-Perm (λ f. HasU32 f.1) p u in
      let fits = (into_request_iff usize_max wide key sig fs region u).0 (request, built) in
      let (other, made) =
        (into_request_iff usize_max wide key sig gs region u').1 (IsServable-Perm fs gs p fits) in
      let one = into_request-IsRequestOf usize_max wide key sig fs region request u built in
      let two = into_request-IsRequestOf usize_max wide key sig gs region other u' made in
      (
        other,
        made,
        λ k.
            one.transactions_are k
            ∙ ap (Option.map (filter_into_proto key sig)) (last_named-Perm k p distinct)
            ∙ sym (two.transactions_are k),
      )
