-- ===== src/Rulesets/Pool.antt =====
-- internal/interfaces/http/enforcer/scanner_pool.go: the packs that new requests are scanned with.
-- A pool of scanners stands for the packs that its scanners are built with.
use promptshield_beta.Base.{length-append, ◌<◌, arith, ◌⊎◌, Bool-cases, inl, subst, inr}
use promptshield_beta.Rulesets.{on_change, Set, notify, reload}
use promptshield_beta.Rulesets.History.{run, listen, Call, newest, load_at, reload_cases}
use promptshield_beta.Base.{List, ℕ, [], ◌∷◌, ◌≡◌, length, ◌++◌, refl, ◌∙◌, ap, sym, suc, zero}
use promptshield_beta.Rules.Types.{RulePack}
use promptshield_beta.Base.Int.{ℤ}
use promptshield_beta.Base.Text.{same, Str}

pub record ScannerPool : Type 0 where
  pub current : List RulePack
  pub max_stream_bytes : ℤ

unfoldable pub swap : List RulePack → ScannerPool → ScannerPool
swap packs p = record p { current = packs }

-- The pool, and the set with the pool's `swap` as its newest listener.
unfoldable pub new_scanner_pool : Set → ℤ → ScannerPool × Set
unfolding swap on_change
new_scanner_pool s max_stream_bytes =
    (swap s.packs (record { current = []; max_stream_bytes = max_stream_bytes }), on_change s)

-- The listener is called with each of the packs.
unfoldable pub swap_all : List (List RulePack) → ScannerPool → ScannerPool
unfolding swap
swap_all [] p = p
swap_all (packs ∷ log) p = swap_all log (swap packs p)

swap_all-newest :
    (log : List (List RulePack)) (p : ScannerPool) → (swap_all log p).current ≡ newest p.current log
unfolding swap_all swap
swap_all-newest [] p = refl
swap_all-newest (packs ∷ log) p = swap_all-newest log (swap packs p)

-- The log of a listener.
abbrev pub log_at : ℕ → List (List (List RulePack)) → List (List RulePack)
log_at n [] = []
log_at zero (l ∷ ls) = l
log_at (suc n) (l ∷ ls) = log_at n ls

log_at-append :
    (n : ℕ) (ls ms : List (List (List RulePack)))
    → n < length ls
    → log_at n (ls ++ ms) ≡ log_at n ls
log_at-append n [] ms h = absurd (omega (arith, h))
log_at-append zero (l ∷ ls) ms h = refl
log_at-append (suc n) (l ∷ ls) ms h = log_at-append n ls ms (omega (arith, h))

log_at-length :
    (ls : List (List (List RulePack))) (l : List (List RulePack))
    → log_at (length ls) (ls ++ l ∷ []) ≡ l
log_at-length [] l = refl
log_at-length (k ∷ ls) l = log_at-length ls l

log_at-notify :
    (n : ℕ) (packs : List RulePack) (ls : List (List (List RulePack)))
    → n < length ls
    → log_at n (notify packs ls) ≡ log_at n ls ++ packs ∷ []
unfolding notify
log_at-notify n packs [] h = absurd (omega (arith, h))
log_at-notify zero packs (l ∷ ls) h = refl
log_at-notify (suc n) packs (l ∷ ls) h = log_at-notify n packs ls (omega (arith, h))

length-notify :
    (packs : List RulePack) (ls : List (List (List RulePack)))
    → length (notify packs ls) ≡ length ls
unfolding notify
length-notify packs [] = refl
length-notify packs (l ∷ ls) = ap suc (length-notify packs ls)

newest-append :
    (first packs : List RulePack) (log : List (List RulePack))
    → newest first (log ++ packs ∷ []) ≡ packs
newest-append first packs [] = refl
newest-append first packs (l ∷ log) = newest-append l packs log

-- The set holds the packs of the last call of the listener at the place, or those that the
-- listener began with where it was not called.
abbrev IsCurrent : List RulePack → ℕ → Set → Type 0
IsCurrent first n s = (n < length s.listeners) × (newest first (log_at n s.listeners) ≡ s.packs)

module _ (first : List RulePack) (n : ℕ) where
  listen-IsCurrent : (s : Set) → IsCurrent first n s → IsCurrent first n (on_change s)
  unfolding on_change
  listen-IsCurrent s (h, e) = (
    omega (arith, h, length-append s.listeners ([] ∷ [])),
    ap (newest first) (log_at-append n s.listeners ([] ∷ []) h) ∙ e,
  )

  -- A reload leaves the set as it is, or stores the packs and calls the listeners.
  reload-IsCurrent :
      (load : Str → Str ⊎ List RulePack) (now : ℤ) (s : Set)
      → IsCurrent first n s
      → IsCurrent first n (reload load now s).1
  reload-IsCurrent load now s (h, e) = elim (Bool-cases (same s.path [])) [
    | inl p ↦
        let eq : (reload load now s).1 ≡ s = unfold reload in ground (arith, p) in
        subst (IsCurrent first n) (sym eq) (h, e)
    | inr p ↦ elim (reload_cases load now s p) [
      | inl eq ↦ subst (IsCurrent first n) (sym eq) (h, e)
      | inr (packs, eq) ↦ subst (IsCurrent first n) (sym eq) (
        omega (arith, h, length-notify packs s.listeners),
        ap (newest first) (log_at-notify n packs s.listeners h)
            ∙ newest-append first packs (log_at n s.listeners),
      )
    ]
  ]

  run-IsCurrent : (cs : List Call) (s : Set) → IsCurrent first n s → IsCurrent first n (run cs s)
  run-IsCurrent [] s i = i
  run-IsCurrent (listen ∷ cs) s i = run-IsCurrent cs (on_change s) (listen-IsCurrent s i)
  run-IsCurrent (load_at now load ∷ cs) s i =
      run-IsCurrent cs (reload load now s).1 (reload-IsCurrent load now s i)

-- Whatever set the pool is made from, also one without a path, and however the set is used before
-- and after, the calls that the pool's listener got leave the pool with the packs that the set
-- holds.
pub new_scanner_pool-current :
    (s : Set) (max_stream_bytes : ℤ) (cs : List Call)
    → (swap_all
        (log_at (length s.listeners) (run cs (new_scanner_pool s max_stream_bytes).1).listeners)
        (new_scanner_pool s max_stream_bytes).0).current
      ≡ (run cs (new_scanner_pool s max_stream_bytes).1).packs
unfolding new_scanner_pool on_change swap
new_scanner_pool-current s max_stream_bytes cs =
    let n = length s.listeners in
    let made : IsCurrent s.packs n (on_change s) = (
      omega (arith, length-append s.listeners ([] ∷ [])),
      ap (newest s.packs) (log_at-length s.listeners []),
    ) in
    swap_all-newest (log_at n (run cs (on_change s)).listeners)
      (record { current = s.packs; max_stream_bytes = max_stream_bytes })
    ∙ (run-IsCurrent s.packs n cs (on_change s) made).1
