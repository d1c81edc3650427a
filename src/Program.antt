-- ===== src/Program.antt =====
-- The options of src/main.cpp. getopt is a parameter: the arguments are what its calls return.
pub mod Main
use liquid.Base.{
  ℕ, ◌%◌, ◌≡◌, refl, Bool, true, false, ◌&&◌, List, [], ◌∷◌, Option, none, some, Bytes, leb,
  if◌then◌else◌, Bool-cases, inl, inr,
}
use liquid.Base.Outcome.{Outcome, ok, stop, Outcome-cases}
use liquid.Base.Words.{u32}
use liquid.Base.Text.{codes}
use liquid.Base.Int.{stoul}

-- What getopt(3) finds: `-c`, `-v` with their arguments, or anything else.
pub data Opt : Type 0 where
  config_file log_level : Bytes → Opt
  unknown : Opt

-- Whether `-v` takes this number: it is kept in an unsigned int, and is at most `ERROR`, 2.
abbrev level_of : Outcome ℕ → Option ℕ
level_of (ok n) = if leb (n % u32) 2 then some (n % u32) else none
level_of (stop _) = none

abbrev with_level {ℓ} : {A : Type ℓ} → Option ℕ → (ℕ → Option A) → Option A
with_level none rest = none
with_level (some n) rest = rest n

-- The loop; `none` is the message on usage and the exit with 1, which a refused `-v` falls into.
unfoldable pub read_options : List Opt → Bytes → ℕ → Option (Bytes × ℕ)
read_options [] file level = some (file, level)
read_options (config_file optarg ∷ opts) file level = read_options opts optarg level
read_options (log_level optarg ∷ opts) file level =
    with_level (level_of (stoul optarg)) (read_options opts file)
read_options (unknown ∷ opts) file level = none

-- `liquid.conf` and INFO where nothing else is said.
unfoldable pub options : List Opt → Option (Bytes × ℕ)
unfolding read_options
options opts = read_options opts (codes "liquid.conf") 0

-- An option that is accepted; the last of each kind.
abbrev pub is_level : Outcome ℕ → Bool
is_level (ok n) = leb (n % u32) 2
is_level (stop _) = false

abbrev pub number_or : ℕ → Outcome ℕ → ℕ
number_or d (ok n) = n % u32
number_or d (stop _) = d

abbrev pub all_accepted : List Opt → Bool
all_accepted [] = true
all_accepted (config_file optarg ∷ opts) = all_accepted opts
all_accepted (log_level optarg ∷ opts) = is_level (stoul optarg) && all_accepted opts
all_accepted (unknown ∷ opts) = false

abbrev pub last_file : Bytes → List Opt → Bytes
last_file d [] = d
last_file d (config_file optarg ∷ opts) = last_file optarg opts
last_file d (log_level optarg ∷ opts) = last_file d opts
last_file d (unknown ∷ opts) = last_file d opts

abbrev pub last_level : ℕ → List Opt → ℕ
last_level d [] = d
last_level d (config_file optarg ∷ opts) = last_level d opts
last_level d (log_level optarg ∷ opts) = last_level (number_or d (stoul optarg)) opts
last_level d (unknown ∷ opts) = last_level d opts

read_options-last :
    (opts : List Opt) (file : Bytes) (level : ℕ)
    → read_options opts file level
      ≡ (if all_accepted opts then some (last_file file opts, last_level level opts) else none)
unfolding read_options
read_options-last [] file level = refl
read_options-last (config_file optarg ∷ opts) file level = read_options-last opts optarg level
read_options-last (unknown ∷ opts) file level = refl
read_options-last (log_level optarg ∷ opts) file level = elim (Outcome-cases (stoul optarg)) [
  | inr (x, e) ↦ rw e refl
  | inl (n, e) ↦ elim (Bool-cases (leb (n % u32) 2)) [
    | inl h ↦ rw (e, h) (read_options-last opts file (n % u32))
    | inr h ↦ rw (e, h) refl
  ]
]

-- The program starts exactly when each option is `-c`, or `-v` with a number that is at most 2 in
-- an unsigned int; it then takes the file of the last `-c` and the level of the last `-v`, or
-- `liquid.conf` and 0.
pub options-last :
    (opts : List Opt)
    → options opts ≡ (
        if all_accepted opts
        then some (last_file (codes "liquid.conf") opts, last_level 0 opts)
        else none)
unfolding options
options-last opts = read_options-last opts (codes "liquid.conf") 0
