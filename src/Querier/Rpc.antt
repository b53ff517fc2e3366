-- ===== src/Querier/Rpc.antt =====
-- util/querier/rpc.go: one Tendermint RPC request over the nodes in turn.
-- An error is its message. The HTTP client, the JSON decoding of an error body and the context are
-- the environment of a call; the requests of a call are numbered from 0.
pub mod Laws
use rollytics.Prelude.{
  ℕ, zero, suc, ◌+◌, ◌-◌, ◌%◌, ◌^◌, Bool, true, false, ◌&&◌, ◌||◌, List, [], ◌∷◌, ◌++◌, Option,
  none, some, leb, ◌==◌, if◌then◌else◌, length, get_elem?, drop,
}
use rollytics.Text.{Text, codes, has_prefix, trim_right}

-- What the HTTP client gives: its errors joined into one message, or a status and a body.
pub data Answer : Type 0 where
  client_error : Text → Answer
  status : ℕ → Text → Answer

pub data Fetched : Type 0 where
  body : Text → Fetched
  error : Text → Fetched

pub record Env : Type 0 where
  pub get : ℕ → Text → Answer
  -- the field `error.data` of a JSON body, or the decoder's message
  pub error_data : Text → Fetched
  pub cancelled : ℕ → Bool
  pub context_error : Text
  -- `fmt.Sprintf` of a status and a body in decimal
  pub http_message : ℕ → Text → Text

unfoldable pub is_digit : ℕ → Bool
is_digit c = leb b'0' c && leb c b'9'

-- The leading digits of a text.
unfoldable pub digits : Text → Text
unfolding is_digit
digits [] = []
digits (c ∷ s) = if is_digit c then c ∷ digits s else []

-- `regexp.MustCompile(p + "(\d+)").FindStringSubmatch(s)[1]`
unfoldable pub find_number : Text → Text → Option Text
unfolding digits has_prefix
find_number p [] = none
find_number p (c ∷ s) =
    let n = digits (drop (length p) (c ∷ s)) in
    let rest = find_number p s in if has_prefix (c ∷ s) p && leb 1 (length n) then some n else rest

-- The message from the matches of the two patterns, if one of them matched.
unfoldable pub height_message : Option Text → Option Text → Option Text
height_message (some n) not_found = some (codes "current height: " ++ n)
height_message none (some n) = some (codes "could not find results for height: " ++ n)
height_message none none = none

-- The branch of `fetchFromRpc` for an internal server error whose body has decoded to `text`.
unfoldable pub height_error : Text → Option Text
unfolding find_number height_message
height_error text =
    height_message (find_number (codes "current blockchain height ") text)
      (find_number (codes "could not find results for height #") text)

unfoldable pub fetch_from_rpc : Env → ℕ → Text → Fetched
unfolding height_error
fetch_from_rpc env i url = elim (env.get i url) [
  | client_error e ↦ error e
  | status code b ↦
      if code == 200
      then body b
      else if code == 500
      then elim (env.error_data b) [
        | error e ↦ error e
        | body text ↦ elim (height_error text) [
          | some e ↦ error e
          | none ↦ error (codes "http response: " ++ env.http_message code b)
        ]
      ]
      else error (codes "http response: " ++ env.http_message code b)
]

unfoldable pub is_future_height_error : Text → Bool
unfolding has_prefix
is_future_height_error e =
    has_prefix e (codes "current height") || has_prefix e (codes "could not find")

-- Request `i` to the node at an index; an index out of range is a panic, here the empty message.
unfoldable pub ask : Env → List Text → Text → ℕ → ℕ → Fetched
unfolding fetch_from_rpc trim_right
ask env urls path i at = elim (get_elem? urls at) [
  | none ↦ error []
  | some url ↦ fetch_from_rpc env i (trim_right url b'/' ++ path)
]

-- The rest of a round: return the answer, or go on with its error as the last one.
unfoldable pub after_answer : ℕ → (Text → Fetched × List ℕ) → Fetched → Fetched × List ℕ
unfolding is_future_height_error
after_answer at continue (body b) = (body b, at ∷ [])
after_answer at continue (error e) =
    if is_future_height_error e
    then (error e, at ∷ [])
    else (let rest = continue e in (rest.0, at ∷ rest.1))

-- The loop over the nodes from `start`; `left` rounds remain. The indices that are asked are
-- collected in order.
unfoldable pub rotate : Env → List Text → Text → ℕ → ℕ → ℕ → Text → Fetched × List ℕ
unfolding ask after_answer
rotate env urls path start i zero last_err = (error last_err, [])
rotate env urls path start i (suc left) last_err =
    let at = (start + i) % length urls in
    if env.cancelled i
    then (error env.context_error, [])
    else after_answer at (λ e. rotate env urls path start (i + 1) left e) (ask env urls path i at)

-- `FetchRPCWithRotation`, with the uint32 `rpcRotateIndex` before and after the call.
unfoldable pub fetch_rpc_with_rotation : Env → ℕ → List Text → Text → (Fetched × List ℕ) × ℕ
unfolding rotate
fetch_rpc_with_rotation env rotate_index urls path =
    if length urls == 0
    then ((error (codes "no rpc urls configured"), []), rotate_index)
    else (let next = (rotate_index + 1) % 2 ^ 32 in
        let start = (next + 2 ^ 32 - 1) % 2 ^ 32 % length urls in
        (rotate env urls path start 0 (length urls) [], next))
