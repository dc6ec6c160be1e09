-- ===== src/Middleware/Approval.antt =====
-- What the two approval hooks share: a list of those who are let in and a list of those who are
-- kept out (middleware/clientapproval/clientapproval.go, middleware/torrentapproval/torrentapproval.go).
-- The two packages have this code twice, with another key and another way to read one.
pub mod Clients
pub mod Torrents
use chihaya.Base.{
  Bool, true, false, not, ◌&&◌, ◌||◌, Bytes, bytes_eq, codes, List, [], ◌∷◌, Error, internal_error,
  Result, ok, err, panic, guard, ◌>>=◌, ◌>>◌, >>=-eq-ok, ok-injective, bytes_eq_iff, bytes_eq_refl,
  Bool-cases, inl, inr, subst, sym, ap, if◌then◌else◌, ◌≡◌, refl, arith,
}

pub record Config : Type 0 where
  pub whitelist : List Bytes
  pub blacklist : List Bytes

-- Two Go maps with empty values: sets.
pub record Lists : Type 0 where
  pub approved : List Bytes
  pub unapproved : List Bytes

unfoldable pub contains : Bytes → List Bytes → Bool
contains k [] = false
contains k (x ∷ xs) = bytes_eq x k || contains k xs

abbrev pub is_empty : List Bytes → Bool
is_empty [] = true
is_empty (x ∷ xs) = false

-- `set[k] = struct{}{}`
unfoldable pub add : Bytes → List Bytes → List Bytes
unfolding contains
add k set = if contains k set then set else k ∷ set

-- One of the two loops of `NewHook`.
unfoldable pub read_list : (Bytes → Result Bytes) → List Bytes → List Bytes → Result (List Bytes)
unfolding add
read_list read [] set = ok set
read_list read (s ∷ ss) set = do k ← read s; read_list read ss (add k set)

unfoldable pub new_lists : (Bytes → Result Bytes) → (Bytes → Result Bytes) → Config → Result Lists
unfolding read_list
new_lists read_white read_black cfg = do
  guard (is_empty cfg.whitelist || is_empty cfg.blacklist)
      (internal_error (codes "using both whitelist and blacklist is invalid"))
  approved ← read_list read_white cfg.whitelist []
  unapproved ← read_list read_black cfg.blacklist []
  ok (record { approved = approved; unapproved = unapproved })

-- The two tests of `HandleAnnounce`.
unfoldable pub check : Error → Lists → Bytes → Result (Unit {0})
check e lists k =
    if not (is_empty lists.approved) && not (contains k lists.approved)
    then err e
    else if not (is_empty lists.unapproved) && contains k lists.unapproved
    then err e
    else ok tt

-- Some text of a list is read as the key.
unfoldable pub names : (Bytes → Result Bytes) → Bytes → List Bytes → Bool
names read k [] = false
names read k (s ∷ ss) = (elim (read s) [ ok x ↦ bytes_eq x k | _ ↦ false ]) || names read k ss

-- What a configuration lets in: what its whitelist names, if it has one, less what its blacklist
-- names.
abbrev pub lets_in : (Bytes → Result Bytes) → (Bytes → Result Bytes) → Config → Bytes → Bool
lets_in read_white read_black cfg k =
    (is_empty cfg.whitelist || names read_white k cfg.whitelist)
    && not (names read_black k cfg.blacklist)

contains_self : (k : Bytes) (set : List Bytes) → contains k (add k set) ≡ true
unfolding add contains
contains_self k set = ground (arith, bytes_eq_refl k)

is_empty-add : (k : Bytes) (set : List Bytes) → is_empty (add k set) ≡ false
unfolding add contains
is_empty-add k [] = refl
is_empty-add k (x ∷ xs) = ground arith

contains-add :
    (k j : Bytes) (set : List Bytes) → contains j (add k set) ≡ (bytes_eq k j || contains j set)
unfolding add contains
contains-add k j set = elim (Bool-cases (bytes_eq k j)) [
  | inl e ↦
      rw e
        (subst (λ i. contains i (add k set) ≡ true) ((bytes_eq_iff k j).0 e) (contains_self k set))
  | inr e ↦ ground arith
]

read_list-contains :
    (read : Bytes → Result Bytes) (ss set : List Bytes) {out : List Bytes} (k : Bytes)
    → read_list read ss set ≡ ok out
    → (contains k out ≡ (names read k ss || contains k set))
      × (is_empty out ≡ (is_empty ss && is_empty set))
unfolding read_list names
read_list-contains read [] set k h =
    (ap (contains k) (sym (ok-injective h)), ap is_empty (sym (ok-injective h)))
read_list-contains read (s ∷ ss) set k h =
    let (x, e, h') = >>=-eq-ok (read s) _ h in
    let (c, n) = read_list-contains read ss (add x set) k h' in
    (ground (arith, e, c, contains-add x k set), ground (arith, n, is_empty-add x set))

-- Both lists as they are and as they were read.
decides :
    (e : Error) (a b white black : List Bytes) (k : Bytes) (p q : Bool)
    → contains k a ≡ (p || false)
    → is_empty a ≡ (is_empty white && true)
    → contains k b ≡ (q || false)
    → is_empty b ≡ (is_empty black && true)
    → check e (record { approved = a; unapproved = b }) k
      ≡ (if (is_empty white || p) && not q then ok tt else err e)
unfolding check contains
decides e [] [] white black k p q ca na cb nb = ground arith
decides e [] (y ∷ b) white black k p q ca na cb nb = ground arith
decides e (x ∷ a) [] white black k p q ca na cb nb = ground arith
decides e (x ∷ a) (y ∷ b) white black k p q ca na cb nb = ground arith

-- What the hooks decide is what the configuration lets in.
pub check-new_lists :
    (read_white read_black : Bytes → Result Bytes) (cfg : Config) (lists : Lists) (e : Error)
    (k : Bytes)
    → new_lists read_white read_black cfg ≡ ok lists
    → check e lists k ≡ (if lets_in read_white read_black cfg k then ok tt else err e)
unfolding new_lists check
check-new_lists read_white read_black cfg lists e k h =
    let (_, _, h₁) = >>=-eq-ok (guard (is_empty cfg.whitelist || is_empty cfg.blacklist) _) _ h in
    let (a, e₁, h₂) = >>=-eq-ok (read_list read_white cfg.whitelist []) _ h₁ in
    let (b, e₂, h₃) = >>=-eq-ok (read_list read_black cfg.blacklist []) _ h₂ in
    let (ca, na) = read_list-contains read_white cfg.whitelist [] k e₁ in
    let (cb, nb) = read_list-contains read_black cfg.blacklist [] k e₂ in
    let is : lists ≡ record { approved = a; unapproved = b } = sym (ok-injective h₃) in
    rw is (decides e a b cfg.whitelist cfg.blacklist k _ _ ca na cb nb)
