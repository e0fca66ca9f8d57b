-- ===== src/Pipe/Queue.antt =====
-- The bytes that a pipe holds, oldest first, and what the two copy loops do to them.
use lighth_os.Common.{
  ℕ, zero, suc, ◌+◌, ◌-◌, ◌%◌, ◌≤◌, ◌<◌, ◌≡◌, refl, ◌∙◌, ap, ap₂, List, [], ◌∷◌, ◌++◌, append_assoc,
  append-nil, arith, length, length-set, take, drop, set, get_or, get_or-set_self, get_or-set_ne,
}
use lighth_os.Pipe.{Pipe, pipe_buf_size, copy_out, copy_in}

-- the `n` bytes from index `h` on, going round at the end
unfoldable pub window : List ℕ → ℕ → ℕ → List ℕ
window buf h zero = []
window buf h (suc n) = get_or buf h 0 ∷ window buf ((h + 1) % pipe_buf_size) n

unfoldable pub contents : Pipe → List ℕ
unfolding window
contents p = window p.buf p.read_pos p.count

pub length-window : (buf : List ℕ) (h n : ℕ) → length (window buf h n) ≡ n
unfolding window
length-window buf h zero = refl
length-window buf h (suc n) = ap suc (length-window buf ((h + 1) % pipe_buf_size) n)

pub length-contents : (p : Pipe) → length (contents p) ≡ p.count
unfolding contents
length-contents p = length-window p.buf p.read_pos p.count

pub contents_empty : (p : Pipe) → p.count ≡ 0 → contents p ≡ []
unfolding contents window
contents_empty p e = rw e

pub take-window : (buf : List ℕ) (k h n : ℕ) → k ≤ n → take k (window buf h n) ≡ window buf h k
unfolding window
take-window buf zero h n l = refl
take-window buf (suc k) h zero l = absurd (omega arith)
take-window buf (suc k) h (suc n) l =
    ap (λ r. get_or buf h 0 ∷ r) (take-window buf k ((h + 1) % pipe_buf_size) n (omega arith))

pub drop-window :
    (buf : List ℕ) (k h n : ℕ)
    → k ≤ n
    → h < pipe_buf_size
    → drop k (window buf h n) ≡ window buf ((h + k) % pipe_buf_size) (n - k)
unfolding window
drop-window buf zero h n l s = ap₂ (window buf) (omega arith) (omega arith)
drop-window buf (suc k) h zero l s = absurd (omega arith)
drop-window buf (suc k) h (suc n) l s =
    drop-window buf k ((h + 1) % pipe_buf_size) n (omega arith) (omega arith)
    ∙ ap₂ (window buf) (omega arith) (omega arith)

-- the bytes that `pipe_read` copies
pub copy_out-window : (k : ℕ) (p : Pipe) → (copy_out k p).0 ≡ window p.buf p.read_pos k
unfolding copy_out window
copy_out-window zero p = refl
copy_out-window (suc k) p =
    ap (λ r. get_or p.buf p.read_pos 0 ∷ r)
      (copy_out-window k (record p { read_pos = (p.read_pos + 1) % pipe_buf_size }))

-- a store just past a window that is not full extends it by that byte
pub window-set :
    (buf : List ℕ) (x n h i : ℕ)
    → length buf ≡ pipe_buf_size
    → h < pipe_buf_size
    → n < pipe_buf_size
    → i ≡ (h + n) % pipe_buf_size
    → window (set buf i x) h (suc n) ≡ window buf h n ++ (x ∷ [])
unfolding window
window-set buf x zero h i l hh hn e =
    let here : i ≡ h = omega arith in
    ap (λ b. b ∷ []) (rw here (get_or-set_self buf h x 0 (omega arith)))
window-set buf x (suc n) h i l hh hn e =
    ap₂ ◌∷◌ (get_or-set_ne buf i h x 0 (omega arith))
      (window-set buf x n ((h + 1) % pipe_buf_size) i l (omega arith) (omega arith) (omega arith))

-- the copy loop of `pipe_write`, as long as the bytes fit
pub window-copy_in :
    (bs : List ℕ) (p : Pipe) (n m : ℕ)
    → length p.buf ≡ pipe_buf_size
    → p.read_pos < pipe_buf_size
    → m ≡ n + length bs
    → m ≤ pipe_buf_size
    → p.write_pos ≡ (p.read_pos + n) % pipe_buf_size
    → window (copy_in bs p).buf p.read_pos m ≡ window p.buf p.read_pos n ++ bs
unfolding copy_in
window-copy_in [] p n m l hr em room e = let same : m ≡ n = omega arith in rw (same, append-nil)
window-copy_in (b ∷ bs) p n m l hr em room e =
    let p' : Pipe = record p {
      buf = set p.buf p.write_pos b;
      write_pos = (p.write_pos + 1) % pipe_buf_size;
    } in
    window-copy_in bs p' (suc n) m (length-set p.buf p.write_pos b ∙ l) hr (omega arith) room
      (omega arith)
    ∙ rw (window-set p.buf b n p.read_pos p.write_pos l hr (omega arith) e)
        (append_assoc (window p.buf p.read_pos n) (b ∷ []) bs)
