-- ===== src/RingBuffer/Bytes.antt =====
-- The doubly mapped memory of src/system/nx/io/ring_buffer.c: stores and loads that run over the end
-- of the first mapping.
use native.Mathlib.Nat.{mod-lt, mod-eq-sub-mod}
use c_liber.Prelude.{
  ℕ, zero, suc, ◌+◌, ◌-◌, ◌%◌, ◌≤◌, ◌<◌, ◌≡◌, ◌≢◌, refl, sym, ap, ap₂, ◌∙◌, List, [], ◌∷◌, ◌++◌,
  append_assoc, append-nil, take, drop, arith, length, length-set, get_or, set, get_or-set_self,
  get_or-set_ne,
}
use mathlib.Core.Path.{◌≡⟨◌⟩◌, ◌∎}
use c_liber.RingBuffer.{store_at, load_at}

pub length-load_at : (size : ℕ) (mem : List ℕ) (off n : ℕ) → length (load_at size mem off n) ≡ n
unfolding load_at
length-load_at size mem off zero = refl
length-load_at size mem off (suc n) = ap suc (length-load_at size mem (off + 1) n)

pub length-store_at :
    (size off : ℕ) (bs mem : List ℕ) → length (store_at size off bs mem) ≡ length mem
unfolding store_at
length-store_at size off [] mem = refl
length-store_at size off (b ∷ bs) mem =
    length-store_at size (off + 1) bs (set mem (off % size) b) ∙ length-set mem (off % size) b

-- Two addresses less than `size` apart fall on different bytes.
mod-ne : (size a k : ℕ) → 0 < size → 0 < k → k < size → (a + k) % size ≢ a % size
mod-ne size a k hs hk hl = grind arith

-- A store at one address does not show in a window that the address is outside of.
load_at-set :
    (size : ℕ) (mem : List ℕ) (off n k i v : ℕ)
    → 0 < size
    → n ≤ k
    → k < size
    → i ≡ (off + k) % size
    → load_at size (set mem i v) off n ≡ load_at size mem off n
unfolding load_at
load_at-set size mem off zero k i v hs hn hk e = refl
load_at-set size mem off (suc n) zero i v hs hn hk e = absurd (omega arith)
load_at-set size mem off (suc n) (suc k) i v hs hn hk e =
    ap₂ ◌∷◌
      (get_or-set_ne mem i (off % size) v 0
        (λ q. mod-ne size off (suc k) hs (omega arith) hk (sym e ∙ q)))
      (load_at-set size mem (off + 1) n k i v hs (omega arith) (omega arith)
        (e ∙ ap (λ t. t % size) (omega arith)))

-- A store just behind a window extends it by the byte stored.
load_at-set_last :
    (size : ℕ) (mem : List ℕ) (off n i v : ℕ)
    → length mem ≡ size
    → n < size
    → i ≡ (off + n) % size
    → load_at size (set mem i v) off (suc n) ≡ load_at size mem off n ++ v ∷ []
unfolding load_at
load_at-set_last size mem off zero i v hm hn e =
    let e' : i ≡ off % size = e ∙ ap (λ t. t % size) (omega arith) in
    rw e' (
      ap (λ x. x ∷ [])
        (get_or-set_self mem (off % size) v 0 (omega (arith, mod-lt off {m = size} (omega arith)))))
load_at-set_last size mem off (suc n) i v hm hn e =
    ap₂ ◌∷◌
      (get_or-set_ne mem i (off % size) v 0
        (λ q. mod-ne size off (suc n) (omega arith) (omega arith) hn (sym e ∙ q)))
      (load_at-set_last size mem (off + 1) n i v hm (omega arith)
        (e ∙ ap (λ t. t % size) (omega arith)))

-- The bytes stored behind a window follow the bytes of the window.
pub load_at-store_at :
    (size : ℕ) (bs mem : List ℕ) (off n : ℕ)
    → length mem ≡ size
    → n + length bs ≤ size
    → load_at size (store_at size (off + n) bs mem) off (n + length bs)
      ≡ load_at size mem off n ++ bs
unfolding store_at
load_at-store_at size [] mem off n hm h =
    ap (load_at size mem off) (omega arith) ∙ sym (append-nil _)
load_at-store_at size (b ∷ bs) mem off n hm h =
    let mem' = set mem ((off + n) % size) b in
    load_at size (store_at size (off + n + 1) bs mem') off (n + suc (length bs))
    ≡⟨ ap₂ (λ a k. load_at size (store_at size a bs mem') off k) (omega arith) (omega arith) ⟩
      load_at size (store_at size (off + suc n) bs mem') off (suc n + length bs)
    ≡⟨ load_at-store_at size bs mem' off (suc n) (length-set mem _ b ∙ hm) (omega arith) ⟩
      load_at size mem' off (suc n) ++ bs
    ≡⟨ ap (λ w. w ++ bs) (load_at-set_last size mem off n _ b hm (omega arith) refl) ⟩
      (load_at size mem off n ++ b ∷ []) ++ bs
    ≡⟨ append_assoc (load_at size mem off n) (b ∷ []) bs ⟩ load_at size mem off n ++ b ∷ bs ∎

-- Reading on from a later offset drops the bytes before it.
pub drop-load_at :
    (size : ℕ) (mem : List ℕ) (off n k : ℕ)
    → k ≤ n
    → drop k (load_at size mem off n) ≡ load_at size mem (off + k) (n - k)
unfolding load_at
drop-load_at size mem off n zero h = ap₂ (load_at size mem) (omega arith) (omega arith)
drop-load_at size mem off zero (suc k) h = absurd (omega arith)
drop-load_at size mem off (suc n) (suc k) h =
    drop-load_at size mem (off + 1) n k (omega arith)
    ∙ ap₂ (load_at size mem) (omega arith) (omega arith)

pub take-load_at :
    (size : ℕ) (mem : List ℕ) (off n k : ℕ)
    → k ≤ n
    → take k (load_at size mem off n) ≡ load_at size mem off k
unfolding load_at
take-load_at size mem off n zero h = refl
take-load_at size mem off zero (suc k) h = absurd (omega arith)
take-load_at size mem off (suc n) (suc k) h =
    ap (◌∷◌ (get_or mem (off % size) 0)) (take-load_at size mem (off + 1) n k (omega arith))

-- The two mappings show the same bytes.
pub load_at-sub :
    (size : ℕ) (mem : List ℕ) (off n : ℕ)
    → 0 < size
    → size ≤ off
    → load_at size mem (off - size) n ≡ load_at size mem off n
unfolding load_at
load_at-sub size mem off zero hs h = refl
load_at-sub size mem off (suc n) hs h =
    ap₂ ◌∷◌ (ap (λ i. get_or mem i 0) (sym (mod-eq-sub-mod {n = off} {m = size} h))) (
      ap (λ a. load_at size mem a n) (omega arith)
      ∙ load_at-sub size mem (off + 1) n hs (omega arith))
