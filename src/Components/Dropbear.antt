-- ===== src/Components/Dropbear.antt =====
-- `find_isolated_dropbear_version` against a scan of the pairs of neighbouring tokens.
use crimp.Common.{
  Bool-cases, Bytes, List, Option, [], ap, append-nil, append_assoc, arith, cons_head, false,
  if◌then◌else◌, inl, inr, length, none, refl, some, sym, true, ℕ, ◌&&◌, ◌++◌, ◌==◌, ◌∙◌, ◌∷◌, ◌≡◌,
  ◌≤◌,
}
use crimp.Components.{
  looks_like_dropbear_version, token_mentions_dropbear, TokenStep, found, go_on, token_step,
  isolated_loop, find_isolated_dropbear_version,
}

-- The tokens between the NUL bytes of a buffer.
unfoldable pub tokens : Bytes → List Bytes
tokens [] = [] ∷ []
tokens (c ∷ s) = if c == 0 then [] ∷ tokens s else cons_head c (tokens s)

-- The first token in the shape of a version that has a neighbour which names Dropbear. Of two such
-- tokens side by side the left one counts.
unfoldable pub adjacent_version : List Bytes → Option Bytes
adjacent_version [] = none
adjacent_version (t ∷ []) = none
adjacent_version (t ∷ (u ∷ ts)) =
    let rest = adjacent_version (u ∷ ts) in
    if looks_like_dropbear_version t && token_mentions_dropbear u
    then some t
    else if looks_like_dropbear_version u && token_mentions_dropbear t
    then some u
    else rest

looks-length : (t : Bytes) → looks_like_dropbear_version t ≡ true → length t ≤ 8
unfolding looks_like_dropbear_version
looks-length t h = ground arith

abbrev candidate_of : Bytes → Option Bytes
candidate_of t = if looks_like_dropbear_version t then some t else none

abbrev pair_step : Bytes → Bytes → TokenStep
pair_step p t =
    if looks_like_dropbear_version p && token_mentions_dropbear t
    then found p
    else if looks_like_dropbear_version t && token_mentions_dropbear p
    then found t
    else go_on (candidate_of t)

token_step_lem : (p t : Bytes) → token_step (some p) (candidate_of p) t ≡ pair_step p t
unfolding token_step
token_step_lem p t = ground (arith, looks-length p, looks-length t)

first_step_lem : (t : Bytes) → token_step none none t ≡ go_on (candidate_of t)
unfolding token_step
first_step_lem t = ground arith

abbrev prepend : Bytes → List Bytes → List Bytes
prepend tok [] = tok ∷ []
prepend tok (t ∷ ts) = (tok ++ t) ∷ ts

prepend-nil : (s : Bytes) → prepend [] (tokens s) ≡ tokens s
unfolding tokens
prepend-nil [] = refl
prepend-nil (c ∷ s) = ground (arith, prepend-nil s)

prepend-cons_head :
    (tok : Bytes) (c : ℕ) (ts : List Bytes)
    → prepend (tok ++ c ∷ []) ts ≡ prepend tok (cons_head c ts)
prepend-cons_head tok c [] = refl
prepend-cons_head tok c (t ∷ ts) = rw (append_assoc tok (c ∷ []) t)

abbrev run : TokenStep → (Option Bytes → Option Bytes) → Option Bytes
run (found version) next = some version
run (go_on candidate) next = next candidate

adjacent_pair :
    (p t : Bytes) (ts : List Bytes) (next : Option Bytes → Option Bytes)
    → next (candidate_of t) ≡ adjacent_version (t ∷ ts)
    → run (pair_step p t) next ≡ adjacent_version (p ∷ t ∷ ts)
unfolding adjacent_version
adjacent_pair p t ts next h = ground arith

run_lem :
    (step : TokenStep) (next : Option Bytes → Option Bytes)
    → Path
        (Option Bytes)
        (elim step [ found version ↦ some version | go_on c ↦ next c ])
        (run step next)
run_lem (found version) next = refl
run_lem (go_on c) next = refl

isolated_loop_end :
    (tok : Bytes) (prev_tok candidate : Option Bytes)
    → isolated_loop [] tok prev_tok candidate ≡ run (token_step prev_tok candidate tok) (λ _. none)
unfolding isolated_loop
isolated_loop_end tok prev_tok candidate = run_lem (token_step prev_tok candidate tok) (λ _. none)

isolated_loop_token :
    (c : ℕ) (s tok : Bytes) (prev_tok candidate : Option Bytes)
    → (c == 0) ≡ true
    → isolated_loop (c ∷ s) tok prev_tok candidate
      ≡ run (token_step prev_tok candidate tok) (isolated_loop s [] (some tok))
unfolding isolated_loop
isolated_loop_token c s tok prev_tok candidate end =
    rw (end, isolated_loop)
      (run_lem (token_step prev_tok candidate tok) (isolated_loop s [] (some tok)))

isolated_loop_more :
    (c : ℕ) (s tok : Bytes) (prev_tok candidate : Option Bytes)
    → (c == 0) ≡ false
    → isolated_loop (c ∷ s) tok prev_tok candidate
      ≡ isolated_loop s (tok ++ c ∷ []) prev_tok candidate
unfolding isolated_loop
isolated_loop_more c s tok prev_tok candidate more = rw (more, isolated_loop)

tokens_end : (c : ℕ) (s : Bytes) → (c == 0) ≡ true → tokens (c ∷ s) ≡ [] ∷ tokens s
unfolding tokens
tokens_end c s end = rw end

tokens_more : (c : ℕ) (s : Bytes) → (c == 0) ≡ false → tokens (c ∷ s) ≡ cons_head c (tokens s)
unfolding tokens
tokens_more c s more = rw more

no_pair : (t : Bytes) → adjacent_version (t ∷ []) ≡ none
unfolding adjacent_version
no_pair t = refl

-- With a previous token, the candidate is that token if it has the shape of a version.
isolated_loop_lem :
    (s tok p : Bytes)
    → isolated_loop s tok (some p) (candidate_of p) ≡ adjacent_version (p ∷ prepend tok (tokens s))
isolated_loop_lem [] tok p =
    isolated_loop_end tok (some p) (candidate_of p)
    ∙ rw (token_step_lem p tok) (
        unfold tokens in
        rw (append-nil tok) (adjacent_pair p tok [] (λ _. none) (sym (no_pair tok))))
isolated_loop_lem (c ∷ s) tok p = elim (Bool-cases (c == 0)) [
  | inl end ↦
      isolated_loop_token c s tok (some p) (candidate_of p) end
      ∙ rw (token_step_lem p tok, tokens_end c s end, append-nil tok)
          (adjacent_pair p tok (tokens s) (isolated_loop s [] (some tok))
            (isolated_loop_lem s [] tok ∙ ap (λ ts. adjacent_version (tok ∷ ts)) (prepend-nil s)))
  | inr more ↦
      isolated_loop_more c s tok (some p) (candidate_of p) more
      ∙ isolated_loop_lem s (tok ++ c ∷ []) p
      ∙ rw (prepend-cons_head tok c (tokens s), tokens_more c s more)
]

isolated_loop_start :
    (s tok : Bytes) → isolated_loop s tok none none ≡ adjacent_version (prepend tok (tokens s))
isolated_loop_start [] tok =
    isolated_loop_end tok none none
    ∙ rw (first_step_lem tok) (unfold tokens in rw (append-nil tok) (sym (no_pair tok)))
isolated_loop_start (c ∷ s) tok = elim (Bool-cases (c == 0)) [
  | inl end ↦
      isolated_loop_token c s tok none none end
      ∙ rw (first_step_lem tok, tokens_end c s end, append-nil tok)
          (isolated_loop_lem s [] tok ∙ ap (λ ts. adjacent_version (tok ∷ ts)) (prepend-nil s))
  | inr more ↦
      isolated_loop_more c s tok none none more
      ∙ isolated_loop_start s (tok ++ c ∷ [])
      ∙ rw (prepend-cons_head tok c (tokens s), tokens_more c s more)
]

-- The pooled version string of Dropbear is the first token, of those between NUL bytes, that has the
-- shape of a version and stands directly beside a token that names Dropbear; nothing is reported if
-- there is none.
pub find_isolated-adjacent :
    (buf : Bytes) → find_isolated_dropbear_version buf ≡ adjacent_version (tokens buf)
unfolding find_isolated_dropbear_version
find_isolated-adjacent buf = isolated_loop_start buf [] ∙ ap adjacent_version (prepend-nil buf)
