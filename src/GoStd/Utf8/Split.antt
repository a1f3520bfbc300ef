-- ===== src/GoStd/Utf8/Split.antt =====
-- Cutting valid UTF-8 in front of a byte that is no continuation byte.
use torana_plugin_sdk.Prelude.{
  ℕ, zero, suc, ◌/◌, ◌≤◌, Bool, true, false, Bytes, [], ◌∷◌, ◌++◌, ◌==◌, ltb, within, ◌||◌,
  if◌then◌else◌, ◌≡◌, ◌≢◌, refl, sym, ◌∙◌, arith,
}
use torana_plugin_sdk.GoStd.Utf8.{
  Utf8State, start, inside, invalid, utf8_lead, utf8_next, utf8_step, utf8_run, utf8_valid,
}

-- A state inside a character waits for bytes from 0x80 to 0xBF only.
Waits : Utf8State → Type 0
Waits start = Unit
Waits invalid = Unit
Waits (inside n lo hi) = (0x80 ≤ lo) × (hi ≤ 0xBF)

if-Waits : (b : Bool) (s t : Utf8State) → Waits s → Waits t → Waits (if b then s else t)
if-Waits true s t p q = p
if-Waits false s t p q = q

utf8_lead-Waits : (c : ℕ) → Waits (utf8_lead c)
unfolding utf8_lead Waits
utf8_lead-Waits c = if-Waits (ltb c 0x80) _ _ tt (
    if-Waits (within 0xC2 0xDF c) _ _ (omega arith, omega arith)
      (if-Waits (c == 0xE0) _ _ (omega arith, omega arith)
        (if-Waits (within 0xE1 0xEC c || within 0xEE 0xEF c) _ _ (omega arith, omega arith)
          (if-Waits (c == 0xED) _ _ (omega arith, omega arith)
            (if-Waits (c == 0xF0) _ _ (omega arith, omega arith)
              (if-Waits (within 0xF1 0xF3 c) _ _ (omega arith, omega arith)
                (if-Waits (c == 0xF4) _ _ (omega arith, omega arith) tt)))))))

utf8_step-Waits : (s : Utf8State) (c : ℕ) → Waits (utf8_step s c)
unfolding utf8_step utf8_next Waits
utf8_step-Waits start c = utf8_lead-Waits c
utf8_step-Waits (inside zero lo hi) c = if-Waits (within lo hi c) _ _ tt tt
utf8_step-Waits (inside (suc n) lo hi) c =
    if-Waits (within lo hi c) _ _ (omega arith, omega arith) tt
utf8_step-Waits invalid c = tt

-- Empty, or not a continuation byte in front.
abbrev pub Begins : Bytes → Type 0
Begins [] = Unit
Begins (c ∷ cs) = (c / 64 == 2) ≡ false

invalid_run : (b : Bytes) → utf8_run invalid b ≡ false
unfolding utf8_run utf8_step
invalid_run [] = refl
invalid_run (c ∷ cs) = invalid_run cs

accepts-if :
    (b : Bool) (s : Utf8State) (cs : Bytes)
    → utf8_run (if b then s else invalid) cs ≡ true
    → b ≡ true
accepts-if true s cs h = refl
accepts-if false s cs h = sym (invalid_run cs) ∙ h

outside :
    (n lo hi c : ℕ) (cs : Bytes)
    → Waits (inside n lo hi)
    → Begins (c ∷ cs)
    → utf8_run (inside n lo hi) (c ∷ cs) ≢ true
unfolding utf8_run utf8_step Waits
outside n lo hi c cs w i h =
    ground (arith, w.0, w.1, i, accepts-if (within lo hi c) (utf8_next n) cs h)

run_between :
    (s : Utf8State) (b : Bytes)
    → Waits s
    → Begins b
    → utf8_run s b ≡ true
    → (utf8_run s [] ≡ true) × (utf8_run start b ≡ true)
unfolding utf8_run utf8_step Waits
run_between start b w i h = (refl, h)
run_between (inside n lo hi) [] w i h = absurd cc
run_between (inside n lo hi) (c ∷ cs) w i h = absurd (outside n lo hi c cs w i h)
run_between invalid b w i h = ground (arith, invalid_run b)

run-split :
    (s : Utf8State) (a b : Bytes)
    → Waits s
    → Begins b
    → utf8_run s (a ++ b) ≡ true
    → (utf8_run s a ≡ true) × (utf8_run start b ≡ true)
unfolding utf8_run
run-split s [] b w i h = run_between s b w i h
run-split start (c ∷ a) b w i h = run-split (utf8_step start c) a b (utf8_step-Waits start c) i h
run-split (inside n lo hi) (c ∷ a) b w i h =
    run-split (utf8_step (inside n lo hi) c) a b (utf8_step-Waits (inside n lo hi) c) i h
run-split invalid (c ∷ a) b w i h = ground (arith, invalid_run (c ∷ a ++ b))

-- Both parts of a valid string that is cut in front of a character are valid.
pub utf8_valid-split :
    (a b : Bytes)
    → Begins b
    → utf8_valid (a ++ b) ≡ true
    → (utf8_valid a ≡ true) × (utf8_valid b ≡ true)
unfolding utf8_valid Waits
utf8_valid-split a b i h = run-split start a b tt i h
