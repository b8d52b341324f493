-- ===== src/Base/Ring.antt =====
-- Ring buffers with free-running indices: the elements from index `h` on, each index reduced
-- modulo the size.
use Prim.Native.Nat.{ℕ, zero, suc, ◌+◌, ◌-◌, ◌%◌, ◌≤◌, ◌<◌}
use mathlib.Core.Path.{◌≡◌, refl, sym, ap, ap₂, ◌∙◌}
use mathlib.Core.Logic.{◌≢◌}
use mathlib.Core.List.{List, [], ◌∷◌, ◌++◌}
use native.Mathlib.Nat.{mod-add-mod}
use native.Mathlib.Omega.{arith}
use os_cpp.Base.Store.{update, update_self, update_ne}

-- Two indices less than the size apart do not meet.
abbrev pub Apart : ℕ → Type 0
Apart size = (h k : ℕ) → 0 < k → k < size → (h + k) % size ≢ h % size

module _ {ℓ} {A : Type ℓ} (size : ℕ) where
  abbrev pub window : (ℕ → A) → ℕ → ℕ → List A
  window buf h zero = []
  window buf h (suc n) = buf (h % size) ∷ window buf (h + 1) n

  -- Only the residue of the start matters, so the start may wrap at a multiple of the size.
  pub window_mod : (buf : ℕ → A) (h k n : ℕ) → h % size ≡ k % size → window buf h n ≡ window buf k n
  window_mod buf h k zero e = refl
  window_mod buf h k (suc n) e = ap₂ ◌∷◌ (ap buf e) (window_mod buf (h + 1) (k + 1) n next)
    where
      next : (h + 1) % size ≡ (k + 1) % size
      next = sym (mod-add-mod h size 1) ∙ ap (λ r. (r + 1) % size) e ∙ mod-add-mod k size 1

  window-update :
      (apart : Apart size) (buf : ℕ → A) (h n d i : ℕ) (x : A)
      → n ≤ d
      → d < size
      → i ≡ (h + d) % size
      → window (update buf i x) h n ≡ window buf h n
  window-update apart buf h zero d i x le lt e = refl
  window-update apart buf h (suc n) d i x le lt e =
      ap₂ ◌∷◌ (update_ne buf i (h % size) x (λ q. apart h d (omega arith) lt (sym e ∙ q))) (
        window-update apart buf (h + 1) n (d - 1) i x (omega arith) (omega arith)
          (e ∙ ap (λ r. r % size) (omega arith)))

  -- Writing just past a window that does not fill the ring extends it by that element.
  pub window-push :
      (apart : Apart size) (buf : ℕ → A) (h n i : ℕ) (x : A)
      → n < size
      → i ≡ (h + n) % size
      → window (update buf i x) h (suc n) ≡ window buf h n ++ (x ∷ [])
  window-push apart buf h zero i x lt e =
      ap (λ y. y ∷ [])
        (ap (update buf i x) (ap (λ r. r % size) (omega arith) ∙ sym e) ∙ update_self buf i x)
  window-push apart buf h (suc n) i x lt e =
      ap₂ ◌∷◌ (update_ne buf i (h % size) x (λ q. apart h (suc n) (omega arith) lt (sym e ∙ q)))
        (window-push apart buf (h + 1) n i x (omega arith) (e ∙ ap (λ r. r % size) (omega arith)))

  -- The window splits off its first element when it has one.
  pub window_pop :
      (buf : ℕ → A) (h n : ℕ) → n ≢ 0 → window buf h n ≡ buf (h % size) ∷ window buf (h + 1) (n - 1)
  window_pop buf h zero p = absurd (p refl)
  window_pop buf h (suc n) p = ap (λ k. window buf h (suc k)) (omega arith)
