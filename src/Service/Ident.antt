-- ===== src/Service/Ident.antt =====
-- Laws of `ID::operator==` (src/publish/nil/service/ID.hpp), of searches by it and of `utils::invoke`.
use nil_service.Common.{
  ℕ, ◌≡◌, inl, inr, ◌↔◌, refl, sym, ap, true, Option, none, some, List, [], ◌∷◌, ◌++◌, arith,
  Bool-cases,
}
use mathlib.Core.List.{Memᴰ}
use nil_service.Service.{ServiceId, same_id, hash, contains_id, Call, called, invoke}

-- Two identities compare equal exactly if they are the same.
pub same_id_iff : (a b : ServiceId) → (same_id a b ≡ true) ↔ (a ≡ b)
unfolding same_id
same_id_iff a b = (λ h. ground arith, λ h. ground arith)

pub same_id_self : (a : ServiceId) → same_id a a ≡ true
same_id_self a = (same_id_iff a a).1 refl

-- Equal identities have equal hashes.
pub hash-same_id : (a b : ServiceId) → same_id a b ≡ true → hash a ≡ hash b
hash-same_id a b h = ap hash ((same_id_iff a b).0 h)

Memᴰ-contains_id : (ids : List ServiceId) {id : ServiceId} → Memᴰ id ids → contains_id ids id ≡ true
unfolding contains_id
Memᴰ-contains_id [] m = elim m [ ]
Memᴰ-contains_id (i ∷ ids) (Memᴰ.head p) = rw (p, same_id_self i)
Memᴰ-contains_id (i ∷ ids) (Memᴰ.tail m) = ground (arith, Memᴰ-contains_id ids m)

-- The search finds exactly the identities that are in the list.
pub contains_id-Memᴰ :
    (ids : List ServiceId) (id : ServiceId) → (contains_id ids id ≡ true) ↔ Memᴰ id ids
unfolding contains_id
contains_id-Memᴰ [] id = (λ h. absurd (cc), Memᴰ-contains_id [])
contains_id-Memᴰ (i ∷ ids) id = (
  λ h. elim (Bool-cases (same_id i id)) [
    | inl e ↦ Memᴰ.head (sym ((same_id_iff i id).0 e))
    | inr e ↦ Memᴰ.tail ((contains_id-Memᴰ ids id).0 (ground arith))
  ],
  Memᴰ-contains_id (i ∷ ids),
)

pub invoke-append :
    (call : ℕ → Call) (xs ys : List (Option ℕ))
    → invoke call (xs ++ ys) ≡ invoke call xs ++ invoke call ys
unfolding invoke
invoke-append call [] ys = refl
invoke-append call (none ∷ xs) ys = invoke-append call xs ys
invoke-append call (some cb ∷ xs) ys = ap (◌∷◌ (called (call cb))) (invoke-append call xs ys)
