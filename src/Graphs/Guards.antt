-- ===== src/Graphs/Guards.antt =====
-- The counting guards of a line: graphs/guards.py. A text is its code points, a similarity is the
-- fraction it is computed from, its threshold is in hundredths, times are whole seconds, and a reason
-- to stop keeps the numbers that its text prints.
pub mod Similarity
pub mod Stopping
use fleet_graph.Common.{
  Bool, List, Option, String, [], eqb, false, filter, if◌then◌else◌, leb, length, ltb, none, not,
  some, true, ℕ, ◌&&◌, ◌*◌, ◌++◌, ◌+◌, ◌||◌, ◌∷◌,
}
use fleet_graph.Common.Dict.{Dict, insert, lookup}

abbrev pub Text : Type 0
Text = List ℕ

abbrev between : ℕ → ℕ → ℕ → Bool
between low high c = leb low c && leb c high

-- What `str.split` splits at.
abbrev pub is_space : ℕ → Bool
is_space c =
    between 9 13 c
    || between 28 32 c
    || eqb c 133
    || eqb c 160
    || eqb c 5760
    || between 8192 8202 c
    || between 8232 8233 c
    || eqb c 8239
    || eqb c 8287
    || eqb c 12288

-- "".join(text.split())
unfoldable pub strip : Text → Text
strip text = filter (λ c. not (is_space c)) text

abbrev pub text_eq : Text → Text → Bool
text_eq [] [] = true
text_eq (x ∷ xs) (y ∷ ys) = eqb x y && text_eq xs ys
text_eq _ _ = false

-- Sets of texts, without repetition.
abbrev pub has : List Text → Text → Bool
has [] x = false
has (y ∷ ys) x = text_eq y x || has ys x

abbrev pub add : Text → List Text → List Text
add x xs = if has xs x then xs else x ∷ xs

abbrev pairs : Text → List Text
pairs [] = []
pairs (a ∷ rest) = let more = pairs rest in elim rest [ [] ↦ [] | b ∷ tail ↦ add (a ∷ b ∷ []) more ]

unfoldable pub bigrams_of : Text → List Text
bigrams_of [] = []
bigrams_of (a ∷ rest) = elim rest [ [] ↦ (a ∷ []) ∷ [] | b ∷ tail ↦ pairs (a ∷ b ∷ tail) ]

abbrev pub bigram_set : Text → List Text
bigram_set text = bigrams_of (strip text)

abbrev pub common : List Text → List Text → List Text
common a b = filter (has b) a

abbrev pub joined : List Text → List Text → List Text
joined a b = a ++ filter (λ x. not (has a x)) b

pub record Score : Type 0 where
  pub part : ℕ
  pub whole : ℕ

abbrev pub jaccard : List Text → List Text → Score
jaccard [] [] = record { part = 1; whole = 1 }
jaccard [] (y ∷ ys) = record { part = 0; whole = 1 }
jaccard (x ∷ xs) [] = record { part = 0; whole = 1 }
jaccard (x ∷ xs) (y ∷ ys) = record {
  part = length (common (x ∷ xs) (y ∷ ys));
  whole = length (joined (x ∷ xs) (y ∷ ys));
}

abbrev pub prompt_similarity : Text → Text → Score
prompt_similarity a b = jaccard (bigram_set a) (bigram_set b)

pub data PromptVerdict : Type 0 where
  fresh duplicate no_progress : PromptVerdict

pub record PromptCheck : Type 0 where
  pub verdict : PromptVerdict
  pub sha256 : String
  pub similarity : Score
  pub first_seen_round : Option ℕ

abbrev pub injectable : PromptCheck → Bool
injectable check = elim check.verdict [ PromptVerdict.fresh ↦ true | _ ↦ false ]

pub record LineBounds : Type 0 where
  pub max_rounds : ℕ
  pub deadline_at : Option ℕ
  pub noop_limit : ℕ
  pub timeout_limit : ℕ
  pub repeat_hundredths : ℕ

abbrev pub default_bounds : LineBounds
default_bounds = record {
  max_rounds = 10;
  deadline_at = none;
  noop_limit = 3;
  timeout_limit = 2;
  repeat_hundredths = 90;
}

pub record LineGuards : Type 0 where
  pub bounds : LineBounds
  pub prompts_seen : Dict ℕ
  pub prev_prompt : Option Text
  pub noop_streak : ℕ
  pub timeout_streak : ℕ

pub data StopReason : Type 0 where
  rounds_over : ℕ → StopReason
  deadline_over : StopReason
  noops timeouts : ℕ → StopReason

abbrev pub deadline_past : Option ℕ → Option ℕ → Bool
deadline_past (some deadline) (some now) = ltb deadline now
deadline_past _ _ = false

unfoldable pub bounds_exceeded : LineGuards → ℕ → Option ℕ → Option StopReason
bounds_exceeded g round_no now =
    if ltb g.bounds.max_rounds round_no
    then some (StopReason.rounds_over round_no)
    else if deadline_past g.bounds.deadline_at now
    then some StopReason.deadline_over
    else none

abbrev pub nothing_alike : Score
nothing_alike = record { part = 0; whole = 1 }

abbrev pub at_least : Score → ℕ → Bool
at_least score hundredths = leb (hundredths * score.whole) (100 * score.part)

abbrev pub against : LineGuards → String → Text → Option Text → PromptCheck
against g digest prompt none = record {
  verdict = PromptVerdict.fresh;
  sha256 = digest;
  similarity = nothing_alike;
  first_seen_round = none;
}
against g digest prompt (some prev) = record {
  verdict =
      if at_least (prompt_similarity prev prompt) g.bounds.repeat_hundredths
      then PromptVerdict.no_progress
      else PromptVerdict.fresh;
  sha256 = digest;
  similarity = prompt_similarity prev prompt;
  first_seen_round = none;
}

-- The answer to the search among the digests that were seen.
abbrev pub checked : LineGuards → String → Text → Option ℕ → PromptCheck
checked g digest prompt (some round_no) = record {
  verdict = PromptVerdict.duplicate;
  sha256 = digest;
  similarity = record { part = 1; whole = 1 };
  first_seen_round = some round_no;
}
checked g digest prompt none = against g digest prompt g.prev_prompt

-- `digest` stands for the SHA-256 of the text's UTF-8, in hexadecimal.
unfoldable pub check_prompt : (Text → String) → LineGuards → Text → PromptCheck
check_prompt digest g prompt =
    checked g (digest prompt) prompt (lookup (digest prompt) g.prompts_seen)

-- `none` where the code raises, on a prompt that may not be injected.
unfoldable pub accept_prompt : LineGuards → PromptCheck → Text → ℕ → Option LineGuards
accept_prompt g check prompt round_no =
    if injectable check
    then some (record {
      bounds = g.bounds;
      prompts_seen = insert check.sha256 round_no g.prompts_seen;
      prev_prompt = some prompt;
      noop_streak = g.noop_streak;
      timeout_streak = g.timeout_streak;
    })
    else none

abbrev streaks : LineGuards → ℕ → ℕ → LineGuards
streaks g n t = record {
  bounds = g.bounds;
  prompts_seen = g.prompts_seen;
  prev_prompt = g.prev_prompt;
  noop_streak = n;
  timeout_streak = t;
}

abbrev pub record_progress : LineGuards → LineGuards
record_progress g = streaks g 0 g.timeout_streak

abbrev pub record_noop : LineGuards → LineGuards
record_noop g = streaks g (g.noop_streak + 1) g.timeout_streak

abbrev pub record_turn_ok : LineGuards → LineGuards
record_turn_ok g = streaks g g.noop_streak 0

abbrev pub record_timeout : LineGuards → LineGuards
record_timeout g = streaks g g.noop_streak (g.timeout_streak + 1)

unfoldable pub streak_exceeded : LineGuards → Option StopReason
streak_exceeded g =
    if leb g.bounds.noop_limit g.noop_streak
    then some (StopReason.noops g.noop_streak)
    else if leb g.bounds.timeout_limit g.timeout_streak
    then some (StopReason.timeouts g.timeout_streak)
    else none
