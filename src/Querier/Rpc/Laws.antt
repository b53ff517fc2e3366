-- ===== src/Querier/Rpc/Laws.antt =====
-- util/querier/rpc.go: which error stops the rotation, and what a call over all nodes returns.
use native.Mathlib.Nat.{mod-lt}
use mathlib.Core.Option.{some-injective}
use rollytics.Prelude.{
  ℕ, zero, suc, ◌+◌, ◌-◌, ◌%◌, ◌^◌, ◌<◌, ◌≤◌, ◌≡◌, ◌↔◌, refl, ap, ◌⊎◌, inl, inr, Bool, true, false,
  List, [], ◌∷◌, ◌++◌, map, Option, none, some, arith, ◌==◌, length, get_elem?, upto, Bool-cases,
  get_elem?-lt, subst, ℕ_discrete,
}
use rollytics.Text.{Text, codes, trim_right}
use rollytics.Querier.Rpc.{
  status, Fetched, body, error, Env, find_number, height_message, height_error, fetch_from_rpc,
  is_future_height_error, ask, after_answer, rotate, fetch_rpc_with_rotation,
}

height_message_future :
    (m n : Option Text) (e : Text) → height_message m n ≡ some e → is_future_height_error e ≡ true
unfolding height_message is_future_height_error
height_message_future (some k) n e h =
    subst (λ t. is_future_height_error t ≡ true) (some-injective _ _ h) refl
height_message_future none (some k) e h =
    subst (λ t. is_future_height_error t ≡ true) (some-injective _ _ h) refl
height_message_future none none e h = cc

height_message-matched :
    (m n : Option Text) (e : Text)
    → height_message m n ≡ some e
    → ((k : Text) × (m ≡ some k)) ⊎ ((k : Text) × (n ≡ some k))
unfolding height_message
height_message-matched (some k) n e h = inl (k, refl)
height_message-matched none (some k) e h = inr (k, refl)
height_message-matched none none e h = cc

matched-height_message :
    (m n : Option Text)
    → ((k : Text) × (m ≡ some k)) ⊎ ((k : Text) × (n ≡ some k))
    → (e : Text) × (height_message m n ≡ some e)
unfolding height_message
matched-height_message (some k) n h = (_, refl)
matched-height_message none (some k) h = (_, refl)
matched-height_message none none (inl (k, e)) = cc
matched-height_message none none (inr (k, e)) = cc

http_message_past : (m : Text) → is_future_height_error (codes "http response: " ++ m) ≡ false
unfolding is_future_height_error
http_message_past m = refl

module _ (env : Env) (i : ℕ) (url b : Text) (code : ℕ) (text : Text) where
  future_of_height_error :
      {e : Text}
      → env.get i url ≡ status code b
      → env.error_data b ≡ body text
      → code ≡ 500
      → height_error text ≡ some e
      → fetch_from_rpc env i url ≡ error e
  unfolding fetch_from_rpc
  future_of_height_error at decoded five h = ground arith

  height_error_of_future :
      (e : Text)
      → env.get i url ≡ status code b
      → env.error_data b ≡ body text
      → fetch_from_rpc env i url ≡ error e
      → is_future_height_error e ≡ true
      → (code ≡ 500) × (height_error text ≡ some e)
  unfolding fetch_from_rpc
  height_error_of_future e at decoded failed future =
      ground (arith, http_message_past (env.http_message code b))

-- When a node answers with an error body that can be read, the request's error stops the rotation
-- exactly when the status is 500 and the node said that the height lies ahead of it: its error
-- text has a number behind one of the two phrases.
pub fetch_from_rpc-is_future :
    (env : Env) (i : ℕ) (url b : Text) (code : ℕ) (text : Text)
    → env.get i url ≡ status code b
    → env.error_data b ≡ body text
    → ((e : Text) × (fetch_from_rpc env i url ≡ error e) × (is_future_height_error e ≡ true)) ↔ (
        (code ≡ 500)
        × (((n : Text) × (find_number (codes "current blockchain height ") text ≡ some n))
            ⊎ ((n : Text) × (find_number (codes "could not find results for height #") text
                  ≡ some n))))
unfolding height_error
fetch_from_rpc-is_future env i url b code text at decoded = (
  λ (e, failed, future).
      (let (five, h) = height_error_of_future env i url b code text e at decoded failed future in
        (five, height_message-matched _ _ e h)),
  λ (five, found).
      (let (e, h) = matched-height_message _ _ found in
        (
          e,
          future_of_height_error env i url b code text at decoded five h,
          height_message_future _ _ e h,
        )),
)

-- An answer that ends the rotation: a body, or the error of a height that lies ahead.
unfoldable pub decides : Fetched → Bool
decides (body b) = true
decides (error e) = is_future_height_error e

module _ (env : Env) (urls : List Text) (path : Text) (start : ℕ) where
  abbrev pub node : ℕ → ℕ
  node j = (start + j) % length urls

  -- Request `j` of the call goes to its node and has the answer `r`.
  abbrev pub Answers : ℕ → Fetched → Type 0
  Answers j r =
      (url : Text) × (get_elem? urls (node j) ≡ some url)
      × (fetch_from_rpc env j (trim_right url b'/' ++ path) ≡ r)

  abbrev pub FailedBefore : ℕ → Type 0
  FailedBefore i =
      (j : ℕ) → j < i → (e : Text) × Answers j (error e) × (is_future_height_error e ≡ false)

  -- How a call ends with the result `r` after `t` requests.
  abbrev pub Ends : ℕ → Fetched → Type 0
  Ends t r =
      ((j : ℕ) × (t ≡ suc j)
        × FailedBefore j
        × Answers j r
        × ((decides r ≡ true) ⊎ (suc j ≡ length urls)))
      ⊎ (FailedBefore t × (env.cancelled t ≡ true) × (r ≡ error env.context_error))

  abbrev Last : ℕ → Text → Type 0
  Last i last_err = (i ≡ 0) ⊎ ((j : ℕ) × (i ≡ suc j) × Answers j (error last_err))

  FailedBefore-suc :
      (i : ℕ) (e : Text)
      → FailedBefore i
      → Answers i (error e)
      → is_future_height_error e ≡ false
      → FailedBefore (suc i)
  FailedBefore-suc i e before now past j lt = elim (ℕ_discrete j i) [
    | yes same ↦ (e, rw same now, past)
    | no other ↦ before j (omega arith)
  ]

  ask-Answers : (i : ℕ) → 0 < length urls → Answers i (ask env urls path i (node i))
  unfolding ask
  ask-Answers i some_url =
      let (url, at) = get_elem?-lt urls (node i) (mod-lt (start + i) some_url) in
      (url, at, rw (at, ask))

  -- What the rounds from `i` on come to.
  abbrev EndsFrom : ℕ → Fetched × List ℕ → Type 0
  EndsFrom i result =
      (k : ℕ) × (i + k ≤ length urls) × (result.1 ≡ map node (upto i k)) × Ends (i + k) result.0

  after_answer-EndsFrom :
      (i : ℕ) (continue : Text → Fetched × List ℕ) (r : Fetched)
      → i < length urls
      → FailedBefore i
      → Answers i r
      → ((e : Text)
          → Answers i (error e)
          → is_future_height_error e ≡ false
          → EndsFrom (i + 1) (continue e))
      → EndsFrom i (after_answer (node i) continue r)
  unfolding after_answer decides
  after_answer-EndsFrom i continue (body b) lt before now rest =
      (1, omega arith, refl, inl (i, omega arith, before, now, inl refl))
  after_answer-EndsFrom i continue (error e) lt before now rest =
      elim (Bool-cases (is_future_height_error e)) [
        | inl future ↦
            rw future (1, omega arith, refl, inl (i, omega arith, before, now, inl future))
        | inr past ↦
            let (k, le, asked, ends) = rest e now past in
            let shift : i + 1 + k ≡ i + suc k = omega arith in
            let one : i + 1 ≡ suc i = omega arith in
            rw past (suc k, omega arith, ap (◌∷◌ (node i)) (rw one at asked), rw shift at ends)
      ]

  rotate-EndsFrom :
      (i left : ℕ) (last_err : Text)
      → 0 < length urls
      → i + left ≡ length urls
      → FailedBefore i
      → Last i last_err
      → EndsFrom i (rotate env urls path start i left last_err)
  unfolding rotate
  rotate-EndsFrom i zero last_err some_url all before (inl none_yet) = absurd (omega arith)
  rotate-EndsFrom i zero last_err some_url all before (inr (j, e, last)) = (
    0,
    omega arith,
    refl,
    inl (j, omega arith, λ m lt. before m (omega arith), last, inr (omega arith)),
  )
  rotate-EndsFrom i (suc left) last_err some_url all before last =
      elim (Bool-cases (env.cancelled i)) [
        | inl stop ↦ rw stop (
          0,
          omega arith,
          refl,
          (let here : i + 0 ≡ i = omega arith in rw here (inr (before, stop, refl))),
        )
        | inr go ↦ rw go (
            after_answer-EndsFrom i _ (ask env urls path i (node i)) (omega arith) before
              (ask-Answers i some_url)
              (λ e now past.
                (let one : i + 1 ≡ suc i = omega arith in
                  rotate-EndsFrom (i + 1) left e some_url (omega arith)
                    (rw one (FailedBefore-suc i e before now past)) (inr (i, one, now)))))
      ]

-- A call with nodes configured asks them in cyclic order, each at most once, from the node that the
-- shared counter selects, and returns the first answer that is a body or the error of a height
-- that lies ahead; when every node fails otherwise, it returns the error of the last one; when the
-- context stops it, its error. The counter goes on by one, so the next call starts at the next
-- node, except where the counter wraps at 2 ^ 32.
pub fetch_rpc_with_rotation-Ends :
    (env : Env) (rotate_index : ℕ) (urls : List Text) (path : Text)
    → rotate_index < 2 ^ 32
    → 0 < length urls
    → let ((r, asked), next) = fetch_rpc_with_rotation env rotate_index urls path in
      let start = rotate_index % length urls in
      ((k : ℕ) × (k ≤ length urls)
        × (asked ≡ map (node env urls path start) (upto 0 k))
        × Ends env urls path start k r)
      × (next ≡ (rotate_index + 1) % 2 ^ 32)
unfolding fetch_rpc_with_rotation
fetch_rpc_with_rotation-Ends env rotate_index urls path small some_url =
    let ne : length urls == 0 ≡ false = ground arith in
    let old : ((rotate_index + 1) % 2 ^ 32 + 2 ^ 32 - 1) % 2 ^ 32 ≡ rotate_index = omega arith in
    let (k, le, asked, ends) =
      rotate-EndsFrom env urls path (rotate_index % length urls) 0 (length urls) [] some_url
        (omega arith) (λ j lt. elim lt [ ]) (inl refl) in
    let from_0 : 0 + k ≡ k = omega arith in
    rw ne (rw old ((k, omega arith, asked, rw from_0 at ends), refl))
