-- ===== src/BootLog/Order.antt =====
-- What boot_log_flush of src/lib/kprintf.c writes after any number of characters.
use lighth_os.BootLog.{BootLog, boot_log_max, putchar, puts, flush}
use lighth_os.BootLog.Ring.{
  last_of, contents, ring, write_at, file_of, IsValid, pushed, pushed_room, pushed_full, ring_next,
  ring_turn,
}
use lighth_os.Common.{
  leb→le, leb→gt, ℕ, suc, ◌+◌, ◌-◌, ◌≤◌, ◌≡◌, refl, ap, sym, ◌∙◌, Bool, true, false, List, [], ◌∷◌,
  ◌++◌, if◌then◌else◌, set, take, drop, length, length-append, length-take, length-drop, length-set,
  take-all, drop-all, append-nil, append_assoc, Bool-cases, inl, inr, arith, ltb, leb, drop-nil,
}

-- the two ways on
turned : ℕ → BootLog → BootLog
turned c log = record log { buf = set log.buf log.head c; head = 0; wrapped = true }

moved : ℕ → BootLog → BootLog
moved c log = record log { buf = set log.buf log.head c; head = log.head + 1 }

putchar_cases :
    (c : ℕ) (log : BootLog) (b : Bool)
    → log.on ≡ true
    → leb boot_log_max (log.head + 1) ≡ b
    → putchar c log ≡ (if b then turned c log else moved c log)
unfolding putchar turned moved
putchar_cases c log b o e =
    ap
      (λ x.
        if x then (if leb boot_log_max (log.head + 1) then turned c log else moved c log) else log)
      o
    ∙ ap (λ x. if x then turned c log else moved c log) e

-- what a character does to the ring
putchar_lem :
    (c : ℕ) (log : BootLog)
    → log.on ≡ true
    → IsValid log
    → IsValid (putchar c log)
      × ((putchar c log).on ≡ true)
      × (contents (putchar c log) ≡ pushed (contents log) c)
unfolding contents turned moved
putchar_lem c log o v = elim (Bool-cases (leb boot_log_max (log.head + 1))) [
  | inl e ↦ rw (putchar_cases c log true o e) (
    record { sized = length-set log.buf log.head c ∙ v.sized; inside = omega arith },
    o,
    ring_turn log.wrapped log.buf log.head c v.sized v.inside
        (leb→le boot_log_max (log.head + 1) e),
  )
  | inr e ↦ rw (putchar_cases c log false o e) (
    record {
      sized = length-set log.buf log.head c ∙ v.sized;
      inside = leb→gt boot_log_max (log.head + 1) e;
    },
    o,
    ring_next log.wrapped log.buf log.head c v.sized v.inside
        (leb→gt boot_log_max (log.head + 1) e),
  )
]

drop-minus :
    (l s : List ℕ) (c : ℕ)
    → boot_log_max ≤ length l
    → last_of (drop 1 l ++ c ∷ s) ≡ last_of (l ++ c ∷ s)
unfolding last_of
drop-minus [] s c h = absurd (omega arith)
drop-minus (x ∷ l) s c h = rw (step) refl
  where
    step : suc (length (l ++ c ∷ s)) - boot_log_max ≡ suc (length (l ++ c ∷ s) - boot_log_max)
    step = omega (arith, length-append l (c ∷ s), h)

last_of-pushed :
    (l s : List ℕ) (c : ℕ)
    → length l ≤ boot_log_max
    → last_of (pushed l c ++ s) ≡ last_of (l ++ c ∷ s)
last_of-pushed l s c h = elim (Bool-cases (leb boot_log_max (length l))) [
  | inl e ↦ rw (pushed_full l c (leb→le boot_log_max (length l) e)) (
      rw (append_assoc (drop 1 l) (c ∷ []) s) (drop-minus l s c (leb→le boot_log_max (length l) e)))
  | inr e ↦
      rw (pushed_room l c (leb→gt boot_log_max (length l) e)) (rw (append_assoc l (c ∷ []) s) refl)
]

-- the characters of the ring are never more than it holds
contents_fit : (log : BootLog) → IsValid log → length (contents log) ≤ boot_log_max
unfolding contents ring
contents_fit log v = fit log.wrapped
  where
    fit : (w : Bool) → length (ring w log.buf log.head) ≤ boot_log_max
    fit true = omega (
      arith,
      v.sized,
      v.inside,
      length-append (drop log.head log.buf) (take log.head log.buf),
      length-take log.head log.buf,
      length-drop log.head log.buf,
    )
    fit false = omega (arith, v.sized, v.inside, length-take log.head log.buf)

last_of_short : (l : List ℕ) → length l ≤ boot_log_max → last_of l ≡ l
unfolding last_of
last_of_short l h = ap (λ n. drop n l) none_left
  where
    none_left : length l - boot_log_max ≡ 0
    none_left = omega (arith, h)

-- After any text a valid ring holds the last 16384 characters of what it held and the text, in
-- order, and stays valid, if the log is on.
pub contents-puts :
    (s : List ℕ) (log : BootLog)
    → log.on ≡ true
    → IsValid log
    → (contents (puts s log) ≡ last_of (contents log ++ s)) × IsValid (puts s log)
unfolding puts
contents-puts [] log o v = (
  sym (ap last_of (append-nil (contents log)) ∙ last_of_short (contents log) (contents_fit log v)),
  v,
)
contents-puts (c ∷ s) log o v =
    let p = putchar_lem c log o v in
    let r = contents-puts s (putchar c log) p.1 p.0 in
    (
      r.0 ∙ ap (λ l. last_of (l ++ s)) p.2 ∙ last_of-pushed (contents log) s c (contents_fit log v),
      r.1,
    )

flush_wrapped :
    (log : BootLog)
    → log.flushing ≡ false
    → log.wrapped ≡ true
    → flush log
      ≡ record { bytes = take (boot_log_max - log.head) (drop log.head log.buf); offset = 0 }
        ∷ record { bytes = take log.head log.buf; offset = boot_log_max - log.head }
        ∷ []
unfolding flush
flush_wrapped log f e = rw f (rw e refl)

flush_started :
    (log : BootLog)
    → log.flushing ≡ false
    → log.wrapped ≡ false
    → ltb 0 log.head ≡ true
    → flush log ≡ record { bytes = take log.head log.buf; offset = 0 } ∷ []
unfolding flush
flush_started log f e g = rw f (rw e (rw g refl))

flush_empty :
    (log : BootLog)
    → log.flushing ≡ false
    → log.wrapped ≡ false
    → ltb 0 log.head ≡ false
    → flush log ≡ []
unfolding flush
flush_empty log f e g = rw f (rw e (rw g refl))

write_at_start : (bytes : List ℕ) → write_at (record { bytes = bytes; offset = 0 }) [] ≡ bytes
unfolding write_at
write_at_start bytes = rw (drop-nil {A = ℕ} (0 + length bytes)) (append-nil bytes)

write_at_end :
    (bytes file : List ℕ) (n : ℕ)
    → length file ≡ n
    → write_at (record { bytes = bytes; offset = n }) file ≡ file ++ bytes
unfolding write_at
write_at_end bytes file n h =
    rw (take-all n file (omega (arith, h)))
      (rw (drop-all (n + length bytes) file (omega (arith, h))) (append-nil (file ++ bytes)))

at_start : (n : ℕ) → ltb 0 n ≡ false → n ≡ 0
at_start n h = ground arith

-- The writes of a flush make of an empty file exactly the characters of a valid ring, in order, if
-- no flush is under way.
pub file_of-flush :
    (log : BootLog) → log.flushing ≡ false → IsValid log → file_of (flush log) [] ≡ contents log
unfolding contents ring file_of
file_of-flush log f v = elim (Bool-cases log.wrapped) [
  | inl e ↦ rw (flush_wrapped log f e) (
      rw e (
        rw
          (take-all (boot_log_max - log.head) (drop log.head log.buf)
            (omega (arith, length-drop log.head log.buf, v.sized)))
          (rw (write_at_start (drop log.head log.buf)) (
            write_at_end (take log.head log.buf) (drop log.head log.buf) (boot_log_max - log.head)
              (omega (arith, length-drop log.head log.buf, v.sized))))))
  | inr e ↦ elim (Bool-cases (ltb 0 log.head)) [
    | inl g ↦ rw (flush_started log f e g) (rw e (write_at_start (take log.head log.buf)))
    | inr g ↦
        rw (flush_empty log f e g) (rw e (sym (ap (λ n. take n log.buf) (at_start log.head g))))
  ]
]
