-- ===== src/CInterface/Callbacks/Hearing.antt =====
-- Which C functions are called for a message of a service.
use nil_service.Common.{
  ℕ, suc, ◌≡◌, refl, ap, ap₂, sym, ◌∙◌, Option, none, some, List, [], ◌∷◌, ◌++◌, map, append_assoc,
  append-nil, arith, Bytes, length, get_elem?, length-append,
}
use nil_service.Service.{ServiceId, on_message, Effect, called, sent, invoke}
use nil_service.Service.Ident.{invoke-append}
use nil_service.Service.EventService.{EventService}
use nil_service.CInterface.{from_cpp_id}
use nil_service.CInterface.Callbacks.{
  CallbackInfo, for_message, Lambda, CService, CCall, message, callback_on_message, perform,
  called_with_message,
}

-- A C function and its context.
abbrev pub info_of : ℕ × ℕ → CallbackInfo
info_of f = record { exec = some f.0; context = f.1; cleanup = none }

-- What the calls of the service come to.
abbrev pub perform_all : List Lambda → List Effect → List (Option CCall)
perform_all ls [] = []
perform_all ls (called call ∷ out) = perform ls call ∷ perform_all ls out
perform_all ls (sent a payload ∷ out) = perform_all ls out

perform_all-append :
    (ls : List Lambda) (xs ys : List Effect)
    → perform_all ls (xs ++ ys) ≡ perform_all ls xs ++ perform_all ls ys
perform_all-append ls [] ys = refl
perform_all-append ls (called call ∷ xs) ys =
    ap (◌∷◌ (perform ls call)) (perform_all-append ls xs ys)
perform_all-append ls (sent a payload ∷ xs) ys = perform_all-append ls xs ys

-- The places of so many lambdas from one on.
abbrev pub places : ℕ → List (ℕ × ℕ) → List (Option ℕ)
places n [] = []
places n (f ∷ fs) = some n ∷ places (suc n) fs

abbrev pub lambdas_of : List (ℕ × ℕ) → List Lambda
lambdas_of fs = map (λ f. for_message (info_of f)) fs

get_elem?-place :
    (before rest : List Lambda) (l : Lambda) (i : ℕ) (ls : List Lambda)
    → length before ≡ i
    → ls ≡ before ++ (l ∷ rest)
    → get_elem? i ls ≡ some l
get_elem?-place [] rest l i ls at split = rw (split, ← at) refl
get_elem?-place (b ∷ before) rest l i ls at split =
    rw (split, ← at)
      (get_elem?-place before rest l (length before) (before ++ (l ∷ rest)) refl refl)

-- The calls of the lambdas that stand in the table from one place on.
perform_all-places :
    (id : ServiceId) (payload : Bytes) (n : ℕ) (fs : List (ℕ × ℕ)) (before ls : List Lambda)
    → length before ≡ n
    → ls ≡ before ++ lambdas_of fs
    → perform_all ls (invoke (λ cb. on_message cb id payload) (places n fs))
      ≡ map (λ (f : ℕ × ℕ). some (message f.0 (from_cpp_id id) payload f.1)) fs
unfolding invoke perform called_with_message
perform_all-places id payload n [] before ls at split = refl
perform_all-places id payload n (f ∷ fs) before ls at split =
    rw
      (
        get_elem?-place before (lambdas_of fs) (for_message (info_of f)) n ls at split,
        perform_all-places id payload (suc n) fs (before ++ for_message (info_of f) ∷ []) ls
            (omega (arith, length-append before (for_message (info_of f) ∷ [])))
            (split ∙ sym (append_assoc before (for_message (info_of f) ∷ []) (lambdas_of fs))),
      )
      refl

module _ {ℓ} {S : Type ℓ} (ops : EventService S) where
  abbrev pub hear_all : List (ℕ × ℕ) → CService S → CService S
  hear_all [] c = c
  hear_all (f ∷ fs) c = hear_all fs (callback_on_message ops (info_of f) c)

module _ {ℓ} {S : Type ℓ} (ops : EventService S) (heard : S → List (Option ℕ))
    (adds : (f : ℕ) (s : S) → heard (ops.on_message f s) ≡ heard s ++ some f ∷ []) where
  lambdas-hear_all :
      (fs : List (ℕ × ℕ)) (c : CService S)
      → (hear_all ops fs c).lambdas ≡ c.lambdas ++ lambdas_of fs
  unfolding callback_on_message
  lambdas-hear_all [] c = sym (append-nil c.lambdas)
  lambdas-hear_all (f ∷ fs) c =
      lambdas-hear_all fs (callback_on_message ops (info_of f) c)
      ∙ append_assoc c.lambdas (for_message (info_of f) ∷ []) (lambdas_of fs)

  places-callback_on_message :
      (f : ℕ × ℕ) (fs : List (ℕ × ℕ)) (c : CService S)
      → places (length (callback_on_message ops (info_of f) c).lambdas) fs
        ≡ places (suc (length c.lambdas)) fs
  unfolding callback_on_message
  places-callback_on_message f fs c =
      ap (λ n. places n fs) (omega (arith, length-append c.lambdas (for_message (info_of f) ∷ [])))

  heard-hear_all :
      (fs : List (ℕ × ℕ)) (c : CService S)
      → heard (hear_all ops fs c).service ≡ heard c.service ++ places (length c.lambdas) fs
  unfolding callback_on_message
  heard-hear_all [] c = sym (append-nil (heard c.service))
  heard-hear_all (f ∷ fs) c =
      heard-hear_all fs (callback_on_message ops (info_of f) c)
      ∙ ap₂ ◌++◌ (adds (length c.lambdas) c.service) (places-callback_on_message f fs c)
      ∙ append_assoc (heard c.service) (some (length c.lambdas) ∷ [])
          (places (suc (length c.lambdas)) fs)

  -- If a service puts each function for messages behind those that it has: a message that it hands on
  -- after C functions have been given to `nil_service_callback_on_message` makes the calls of before and
  -- then calls each C function once, in the order in which they were given, with the identity, the
  -- payload and the function's own context.
  pub perform_all-hear_all :
      (fs : List (ℕ × ℕ)) (c : CService S) (id : ServiceId) (payload : Bytes)
      → perform_all
          (hear_all ops fs c).lambdas
          (invoke (λ cb. on_message cb id payload) (heard (hear_all ops fs c).service))
        ≡ perform_all
            (hear_all ops fs c).lambdas
            (invoke (λ cb. on_message cb id payload) (heard c.service))
          ++ map (λ (f : ℕ × ℕ). some (message f.0 (from_cpp_id id) payload f.1)) fs
  perform_all-hear_all fs c id payload =
      let ls = (hear_all ops fs c).lambdas in
      let call = λ (cb : ℕ). on_message cb id payload in
      ap (λ cbs. perform_all ls (invoke call cbs)) (heard-hear_all fs c)
      ∙ ap (perform_all ls) (invoke-append call (heard c.service) (places (length c.lambdas) fs))
      ∙ perform_all-append ls (invoke call (heard c.service))
          (invoke call (places (length c.lambdas) fs))
      ∙ ap (◌++◌ (perform_all ls (invoke call (heard c.service)))) (
          perform_all-places id payload (length c.lambdas) fs c.lambdas ls refl
            (lambdas-hear_all fs c))
