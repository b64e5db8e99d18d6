-- ===== src/Coroutine/Switch/Alternation.antt =====
-- Control passes between the main coroutine of a thread and one other at a time.
use tirpc.Coroutine.Switch.{Coroutine, Thread, yield_cor, resume_cor}
use tirpc.Prelude.{
  ℕ, false, List, [], ◌∷◌, ◌++◌, Option, none, some, get_elem?, Outcome, ok, ◌>>=◌, ◌≡◌, ◌≢◌, ◌⊎◌,
}

-- The switches from `c` to `d`, each of them out of the main coroutine `m` or into it.
abbrev pub Alternates : ℕ → ℕ → List (ℕ × ℕ) → ℕ → Type 0
Alternates m c [] d = c ≡ d
Alternates m c ((a, b) ∷ s) d =
    (a ≡ c) × (((a ≡ m) × (b ≢ m)) ⊎ ((a ≢ m) × (b ≡ m))) × Alternates m b s d

pub data Call : Type 0 where
  resumes : Option ℕ → Call
  yields : Call

abbrev pub called : Call → Thread → Outcome Thread
called (resumes co) t = resume_cor co t
called yields t = yield_cor t

abbrev pub calls_all : List Call → Thread → Outcome Thread
calls_all [] t = ok t
calls_all (c ∷ calls) t = called c t >>= calls_all calls

-- A pointer that Resume is given points to a coroutine whose context was set; it may be null where nothing
-- is printed.
abbrev pub Sound : Thread → Call → Type 0
Sound t (resumes none) = t.prints ≡ false
Sound t (resumes (some p)) =
    (co : Coroutine) × (get_elem? t.cors p ≡ some co) × (top : ℕ) × (co.top ≡ some top)
Sound t yields = Unit

abbrev pub EachSound : Thread → List Call → Type 0
EachSound t [] = Unit
EachSound t (c ∷ calls) = Sound t c × EachSound t calls

-- The thread `t` with a main coroutine, a current one, a runtime and switches.
abbrev pub on : ℕ → ℕ → Option ℕ → List (ℕ × ℕ) → Thread → Thread
on m c r s t = record t {
  main_coroutine = some m;
  current_coroutine = some c;
  current_runtime = r;
  swaps = s;
}

abbrev pub Moves : ℕ → ℕ → List (ℕ × ℕ) → Thread → Outcome Thread → Type 0
Moves m c s t o =
    (new : List (ℕ × ℕ)) × (d : ℕ) × (r : Option ℕ) × (o ≡ ok (on m d r (s ++ new) t))
    × Alternates m c new d
