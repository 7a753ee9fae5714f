-- ===== src/Sieve/Fence/Notes.antt =====
-- What `noteText` makes of the pieces of a stream (internal/toolstream/tool_sieve_state.go).
use deep_seek_web_to_api.Prelude.{
  ℕ, zero, suc, ◌+◌, ◌≤◌, ◌≡◌, refl, ap, ◌∙◌, Bool, true, false, List, [], ◌∷◌, ◌++◌, replicate,
  arith, if◌then◌else◌,
}
use deep_seek_web_to_api.Prelude.Int.{ℤ, pos}
use deep_seek_web_to_api.Sieve.Bytes.{Bytes, only_space}
use deep_seek_web_to_api.Sieve.Fence.{
  Fence, apply_fence_marker, flush_ticks, flush_tildes, flush_pending, next_byte, simulate,
  note_text,
}

pub simulate-append : (f : Fence) (s t : Bytes) → simulate f (s ++ t) ≡ simulate (simulate f s) t
unfolding simulate
simulate-append f [] t = refl
simulate-append f (c ∷ s) t = simulate-append (next_byte f c) s t

-- The pieces noted one after another.
abbrev pub notes : Fence → List Bytes → Fence
notes f [] = f
notes f (s ∷ rest) = notes (note_text f s) rest

-- The state in the middle of a line, with `n` backticks pending.
abbrev pub counted : List ℤ → Bool → ℕ → Fence
counted stack start n = record {
  stack = stack;
  pending_ticks = n;
  pending_tildes = 0;
  line_start = start;
}

simulate-ticks :
    (stack : List ℤ) (start : Bool) (k n : ℕ)
    → simulate (counted stack start k) (replicate n b'`') ≡ counted stack start (k + n)
unfolding simulate next_byte
simulate-ticks stack start k zero = ap (counted stack start) (omega arith)
simulate-ticks stack start k (suc n) =
    simulate-ticks stack start (k + 1) n ∙ ap (counted stack start) (omega arith)

only_space-tick : (s : Bytes) → only_space (b'`' ∷ s) ≡ false
unfolding only_space
only_space-tick [] = refl
only_space-tick (a ∷ []) = refl
only_space-tick (a ∷ b ∷ s) = refl

only_space-newline : (s : Bytes) → only_space (0xa ∷ b'`' ∷ s) ≡ false
unfolding only_space
only_space-newline [] = refl
only_space-newline (a ∷ s) = only_space-tick (a ∷ s)

-- A line that opens a fence.
abbrev pub fence_line : ℕ → Bytes
fence_line n = replicate n b'`' ++ 0xa ∷ []

simulate-fence_line :
    (stack : List ℤ) (start : Bool) (n : ℕ)
    → 3 ≤ n
    → (simulate (counted stack start 0) (fence_line n)).stack
      ≡ (if start then apply_fence_marker stack (pos n) else stack)
simulate-fence_line stack start n h =
    rw
      (
        simulate-append (counted stack start 0) (replicate n b'`') (0xa ∷ []),
        simulate-ticks stack start 0 n,
      )
      (unfold simulate next_byte flush_pending flush_ticks flush_tildes in ground arith)

newline_passed :
    (stack : List ℤ) → note_text (counted stack false 0) (0xa ∷ []) ≡ counted stack false 0
unfolding note_text only_space
newline_passed stack = refl

newline_starts : (stack : List ℤ) → next_byte (counted stack false 0) 0xa ≡ counted stack true 0
unfolding next_byte flush_pending flush_ticks flush_tildes
newline_starts stack = refl

note_text-fence_line :
    (f : Fence) (n : ℕ) → 3 ≤ n → note_text f (fence_line n) ≡ simulate f (fence_line n)
unfolding note_text
note_text-fence_line f zero h = absurd (omega arith)
note_text-fence_line f (suc n) h = rw (only_space-tick (replicate n b'`' ++ 0xa ∷ [])) refl

note_text-newline :
    (f : Fence) (n : ℕ)
    → 3 ≤ n
    → note_text f (0xa ∷ fence_line n) ≡ simulate (next_byte f 0xa) (fence_line n)
unfolding note_text simulate
note_text-newline f zero h = absurd (omega arith)
note_text-newline f (suc n) h = rw (only_space-newline (replicate n b'`' ++ 0xa ∷ [])) refl

-- Where a stream stands in the middle of a line and the end of the line comes as a piece of its own,
-- the fence on the next line is missed: the stack stays as it was. In one piece the same text opens
-- the fence, or closes the one that it matches.
pub fence_missed :
    (stack : List ℤ) (n : ℕ)
    → 3 ≤ n
    → ((notes (counted stack false 0) ((0xa ∷ []) ∷ fence_line n ∷ [])).stack ≡ stack)
      × ((notes (counted stack false 0) ((0xa ∷ fence_line n) ∷ [])).stack
          ≡ apply_fence_marker stack (pos n))
fence_missed stack n h = (
  ap (λ f. (note_text f (fence_line n)).stack) (newline_passed stack)
      ∙ ap (λ f. f.stack) (note_text-fence_line (counted stack false 0) n h)
      ∙ simulate-fence_line stack false n h,
  ap (λ f. f.stack) (note_text-newline (counted stack false 0) n h)
      ∙ ap (λ f. (simulate f (fence_line n)).stack) (newline_starts stack)
      ∙ simulate-fence_line stack true n h,
)
