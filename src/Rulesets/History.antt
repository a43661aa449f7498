-- ===== src/Rulesets/History.antt =====
-- internal/application/rulesets/set.go: the set after any sequence of calls.
use promptshield_beta.Rulesets.{notify, on_change, reload, Set}
use promptshield_beta.Base.{
  List, ◌∷◌, [], ◌++◌, suc, ◌⊎◌, ◌≡◌, some, ◌∙◌, inl, append-nil, ap, arith, false, ◌+◌, inr,
  length, append_assoc, sym, refl, subst,
}
use promptshield_beta.Base.Int.{ℤ}
use promptshield_beta.Base.Text.{Str, same}
use promptshield_beta.Rules.Types.{RulePack}

-- A registration, or a reload at a time with the loader's answers.
pub data Call : Type 0 where
  listen : Call
  load_at : (now : ℤ) (load : Str → Str ⊎ List RulePack) → Call

abbrev pub step : Call → Set → Set
step listen s = on_change s
step (load_at now load) s = (reload load now s).1

abbrev pub run : List Call → Set → Set
run [] s = s
run (c ∷ cs) s = run cs (step c s)

-- The packs that the calls load from the path, in order.
abbrev loads_of : Str → List Call → List (List RulePack)
loads_of path [] = []
loads_of path (listen ∷ cs) = loads_of path cs
loads_of path (load_at now load ∷ cs) = elim (load path) [
  | inl e ↦ loads_of path cs
  | inr packs ↦ packs ∷ loads_of path cs
]

-- What each listener that the calls register hears: the loads after its registration.
abbrev heard_of : Str → List Call → List (List (List RulePack))
heard_of path [] = []
heard_of path (listen ∷ cs) = loads_of path cs ∷ heard_of path cs
heard_of path (load_at now load ∷ cs) = heard_of path cs

-- The newest of the loads, or what was there.
abbrev pub newest : List RulePack → List (List RulePack) → List RulePack
newest packs [] = packs
newest packs (l ∷ ls) = newest l ls

-- Each log with more calls at its end.
abbrev extended : List (List RulePack) → List (List (List RulePack)) → List (List (List RulePack))
extended ls [] = []
extended ls (h ∷ hs) = (h ++ ls) ∷ extended ls hs

extended-nil : (hs : List (List (List RulePack))) → extended [] hs ≡ hs
extended-nil [] = refl
extended-nil (h ∷ hs) = rw (append-nil h) (ap (λ l. h ∷ l) (extended-nil hs))

extended-notify :
    (p : List RulePack) (ls : List (List RulePack)) (hs : List (List (List RulePack)))
    → extended ls (notify p hs) ≡ extended (p ∷ ls) hs
unfolding notify
extended-notify p ls [] = refl
extended-notify p ls (h ∷ hs) =
    ap (λ x. x ∷ extended ls (notify p hs)) (append_assoc h (p ∷ []) ls)
    ∙ ap (λ y. (h ++ p ∷ ls) ∷ y) (extended-notify p ls hs)

extended-append :
    (ls : List (List RulePack)) (hs js : List (List (List RulePack)))
    → extended ls (hs ++ js) ≡ extended ls hs ++ extended ls js
extended-append ls [] js = refl
extended-append ls (h ∷ hs) js = ap (λ l. (h ++ ls) ∷ l) (extended-append ls hs js)

-- The set after a reload that succeeded.
abbrev pub loaded : List RulePack → ℤ → Set → Set
loaded packs now s = record s {
  packs = packs;
  loaded_at = some now;
  generation = suc s.generation;
  listeners = notify packs s.listeners;
}

reload-inl :
    (load : Str → Str ⊎ List RulePack) (now : ℤ) (s : Set) (e : Str)
    → load s.path ≡ inl e
    → (reload load now s).1 ≡ s
unfolding reload
reload-inl load now s e z = ground (arith, z)

reload-inr :
    (load : Str → Str ⊎ List RulePack) (now : ℤ) (s : Set) (packs : List RulePack)
    → same s.path [] ≡ false
    → load s.path ≡ inr packs
    → (reload load now s).1 ≡ loaded packs now s
unfolding reload
reload-inr load now s packs h z = ground (arith, h, z)

-- A reload of a set with a path leaves it as it is, or stores what was loaded.
pub reload_cases :
    (load : Str → Str ⊎ List RulePack) (now : ℤ) (s : Set)
    → same s.path [] ≡ false
    → ((reload load now s).1 ≡ s)
      ⊎ ((packs : List RulePack) × ((reload load now s).1 ≡ loaded packs now s))
reload_cases load now s h =
    elim (load s.path)
        as (λ x.
          load s.path ≡ x
          → ((reload load now s).1 ≡ s)
            ⊎ ((packs : List RulePack) × ((reload load now s).1 ≡ loaded packs now s))) [
              | inl e ↦ λ z. inl (reload-inl load now s e z)
              | inr packs ↦ λ z. inr (packs, reload-inr load now s packs h z)
            ]
      refl

-- What a set is after calls.
abbrev pub IsAfter : List Call → Set → Set → Type 0
IsAfter cs s t =
    let loads = loads_of s.path cs in
    (t.path ≡ s.path)
    × (t.packs ≡ newest s.packs loads)
    × (t.generation ≡ s.generation + length loads)
    × (t.listeners ≡ extended loads s.listeners ++ heard_of s.path cs)

listened-IsAfter :
    (cs : List Call) (s t : Set) → IsAfter cs (on_change s) t → IsAfter (listen ∷ cs) s t
unfolding on_change
listened-IsAfter cs s t (p, q, g, l) = (
  p,
  q,
  g,
  l
      ∙ ap (λ x. x ++ heard_of s.path cs)
          (extended-append (loads_of s.path cs) s.listeners ([] ∷ []))
      ∙ append_assoc (extended (loads_of s.path cs) s.listeners) _ (heard_of s.path cs),
)

failed-IsAfter :
    (cs : List Call) (s t : Set) (now : ℤ) (load : Str → Str ⊎ List RulePack) (e : Str)
    → load s.path ≡ inl e
    → IsAfter cs s t
    → IsAfter (load_at now load ∷ cs) s t
failed-IsAfter cs s t now load e z after = rw z after

loaded-IsAfter :
    (cs : List Call) (s t : Set) (now : ℤ) (load : Str → Str ⊎ List RulePack)
    (packs : List RulePack)
    → load s.path ≡ inr packs
    → IsAfter cs (loaded packs now s) t
    → IsAfter (load_at now load ∷ cs) s t
loaded-IsAfter cs s t now load packs z (p, q, g, l) = rw z (
  p,
  q,
  omega (arith, g),
  l ∙ ap (λ x. x ++ heard_of s.path cs) (extended-notify packs (loads_of s.path cs) s.listeners),
)

-- After any sequence of calls on a set with a path, the set holds the packs of the newest reload
-- that succeeded, the generation counts those reloads, and each listener was called with the packs
-- of those that came after its registration, in order.
pub run-IsAfter : (cs : List Call) (s : Set) → same s.path [] ≡ false → IsAfter cs s (run cs s)
run-IsAfter [] s h = (refl, refl, omega arith, sym (append-nil _ ∙ extended-nil s.listeners))
run-IsAfter (listen ∷ cs) s h =
    listened-IsAfter cs s (run cs (on_change s))
      (run-IsAfter cs (on_change s) (unfold on_change in h))
run-IsAfter (load_at now load ∷ cs) s h =
    elim (load s.path)
        as (λ x.
          load s.path ≡ x → IsAfter (load_at now load ∷ cs) s (run (load_at now load ∷ cs) s)) [
            | inl e ↦ λ z.
                subst (λ t. IsAfter (load_at now load ∷ cs) s (run cs t))
                  (sym (reload-inl load now s e z))
                  (failed-IsAfter cs s (run cs s) now load e z (run-IsAfter cs s h))
            | inr packs ↦ λ z.
                subst (λ t. IsAfter (load_at now load ∷ cs) s (run cs t))
                  (sym (reload-inr load now s packs h z))
                  (loaded-IsAfter cs s (run cs (loaded packs now s)) now load packs z
                    (run-IsAfter cs (loaded packs now s) h))
          ]
      refl
