-- ===== src/Metadata/Grants/Active.antt =====
-- The partial unique index: no two active rows grant the same.
use fbs_core.Base.{
  Bool, true, false, not, ◌&&◌, ◌||◌, Bytes, List, [], ◌∷◌, ◌++◌, str_eq, str_eq_iff, ◌≡◌, refl, ap,
  arith,
}
use fbs_core.Metadata.Grants.{
  GrantRow, same_grant, find_active_duplicate, is_some, indexed_duplicate, without_id, set_row,
  find_grant,
}

-- Each row differs from the active ones after it, if it is active itself.
abbrev pub active_unique : List GrantRow → Bool
active_unique [] = true
active_unique (x ∷ rest) =
    not (x.is_active && is_some (find_active_duplicate x rest)) && active_unique rest

abbrev pub IsActiveUnique : List GrantRow → Type 0
IsActiveUnique l = active_unique l ≡ true

str_eq_sym : (a b : Bytes) → str_eq a b ≡ str_eq b a
str_eq_sym a b = ground (arith, str_eq_iff a b, str_eq_iff b a)

same_grant_sym : (g x : GrantRow) → same_grant g x ≡ same_grant x g
same_grant_sym g x = ground (
  arith,
  str_eq_sym g.bucket_name x.bucket_name,
  str_eq_sym g.grantee_user_id x.grantee_user_id,
  str_eq_sym g.action x.action,
  str_eq_sym g.key_prefix x.key_prefix,
)

-- A row at the end is a duplicate of those it is the same as.
duplicate-last :
    (x g : GrantRow) (l : List GrantRow)
    → is_some (find_active_duplicate x (l ++ (g ∷ [])))
      ≡ (is_some (find_active_duplicate x l) || (same_grant x g && g.is_active))
unfolding find_active_duplicate
duplicate-last x g [] = ground arith
duplicate-last x g (y ∷ l) = ground (arith, duplicate-last x g l)

append-IsActiveUnique :
    (g : GrantRow) (l : List GrantRow)
    → IsActiveUnique l
    → is_some (indexed_duplicate g l) ≡ false
    → IsActiveUnique (l ++ (g ∷ []))
unfolding indexed_duplicate find_active_duplicate
append-IsActiveUnique g [] u h = ground arith
append-IsActiveUnique g (x ∷ l) u h =
    ground (arith, u, h, duplicate-last x g l, same_grant_sym g x, append-IsActiveUnique g l)

-- The primary key.
abbrev pub unique_ids : List GrantRow → Bool
unique_ids [] = true
unique_ids (x ∷ rest) = not (is_some (find_grant x.id rest)) && unique_ids rest

abbrev pub IsValid : List GrantRow → Type 0
IsValid l = IsActiveUnique l × (unique_ids l ≡ true)

find_grant-last :
    (id : Bytes) (g : GrantRow) (l : List GrantRow)
    → is_some (find_grant id (l ++ (g ∷ []))) ≡ (is_some (find_grant id l) || str_eq g.id id)
unfolding find_grant
find_grant-last id g [] = ground arith
find_grant-last id g (x ∷ l) = ground (arith, find_grant-last id g l)

append-unique_ids :
    (g : GrantRow) (l : List GrantRow)
    → unique_ids l ≡ true
    → is_some (find_grant g.id l) ≡ false
    → unique_ids (l ++ (g ∷ [])) ≡ true
unfolding find_grant
append-unique_ids g [] u h = ground arith
append-unique_ids g (x ∷ l) u h =
    ground (arith, u, h, find_grant-last x.id g l, str_eq_sym x.id g.id, append-unique_ids g l)

pub append-IsValid :
    (g : GrantRow) (l : List GrantRow)
    → IsValid l
    → is_some (indexed_duplicate g l) ≡ false
    → is_some (find_grant g.id l) ≡ false
    → IsValid (l ++ (g ∷ []))
append-IsValid g l (u, v) h k = (append-IsActiveUnique g l u h, append-unique_ids g l v k)

-- Fewer rows.
duplicate-without_id :
    (x : GrantRow) (id : Bytes) (l : List GrantRow)
    → is_some (find_active_duplicate x l) ≡ false
    → is_some (find_active_duplicate x (without_id id l)) ≡ false
unfolding find_active_duplicate without_id
duplicate-without_id x id [] h = refl
duplicate-without_id x id (y ∷ l) h = ground (arith, h, duplicate-without_id x id l)

find_grant-without_id :
    (j id : Bytes) (l : List GrantRow)
    → is_some (find_grant j l) ≡ false
    → is_some (find_grant j (without_id id l)) ≡ false
unfolding find_grant without_id
find_grant-without_id j id [] h = refl
find_grant-without_id j id (y ∷ l) h = ground (arith, h, find_grant-without_id j id l)

pub without_id-IsActiveUnique :
    (id : Bytes) (l : List GrantRow) → IsActiveUnique l → IsActiveUnique (without_id id l)
unfolding without_id
without_id-IsActiveUnique id [] u = refl
without_id-IsActiveUnique id (x ∷ l) u =
    ground (arith, u, duplicate-without_id x id l, without_id-IsActiveUnique id l)

pub without_id-unique_ids :
    (id : Bytes) (l : List GrantRow) → unique_ids l ≡ true → unique_ids (without_id id l) ≡ true
unfolding without_id
without_id-unique_ids id [] u = refl
without_id-unique_ids id (x ∷ l) u =
    ground (arith, u, find_grant-without_id x.id id l, without_id-unique_ids id l)

-- One row set to another.
duplicate-set_row :
    (x new : GrantRow) (id : Bytes) (l : List GrantRow)
    → is_some (find_active_duplicate x l) ≡ false
    → (same_grant x new && new.is_active) ≡ false
    → is_some (find_active_duplicate x (set_row id new l)) ≡ false
unfolding find_active_duplicate set_row
duplicate-set_row x new id [] h k = refl
duplicate-set_row x new id (y ∷ l) h k = ground (arith, h, k, duplicate-set_row x new id l)

find_grant-set_row :
    (j id : Bytes) (new : GrantRow) (l : List GrantRow)
    → str_eq new.id id ≡ true
    → is_some (find_grant j (set_row id new l)) ≡ is_some (find_grant j l)
unfolding find_grant set_row
find_grant-set_row j id new [] h = refl
find_grant-set_row j id new (y ∷ l) h = ground (
  arith,
  h,
  find_grant-set_row j id new l,
  str_eq_iff new.id id,
  str_eq_iff y.id id,
  str_eq_iff new.id j,
  str_eq_iff y.id j,
)

without_absent :
    (id : Bytes) (l : List GrantRow) → is_some (find_grant id l) ≡ false → without_id id l ≡ l
unfolding find_grant without_id
without_absent id [] h = refl
without_absent id (y ∷ l) h = ground (arith, h, without_absent id l)

pub set_row-IsActiveUnique :
    (id : Bytes) (new : GrantRow) (l : List GrantRow)
    → IsActiveUnique l
    → unique_ids l ≡ true
    → is_some (indexed_duplicate new (without_id id l)) ≡ false
    → IsActiveUnique (set_row id new l)
unfolding set_row without_id indexed_duplicate find_active_duplicate
set_row-IsActiveUnique id new [] u v h = refl
set_row-IsActiveUnique id new (x ∷ l) u v h = ground (
  arith,
  u,
  v,
  h,
  str_eq_iff x.id id,
  without_absent x.id l,
  same_grant_sym x new,
  duplicate-set_row x new id l,
  set_row-IsActiveUnique id new l,
)

pub set_row-unique_ids :
    (id : Bytes) (new : GrantRow) (l : List GrantRow)
    → unique_ids l ≡ true
    → str_eq new.id id ≡ true
    → unique_ids (set_row id new l) ≡ true
unfolding set_row
set_row-unique_ids id new [] v h = refl
set_row-unique_ids id new (x ∷ l) v h = ground (
  arith,
  v,
  h,
  ap (λ (j : Bytes). is_some (find_grant j l)),
  str_eq_iff new.id id,
  str_eq_iff x.id id,
  find_grant-set_row x.id id new l,
  set_row-unique_ids id new l,
)
