-- ===== src/Crest/Body/Received.antt =====
-- What a request holds of the bytes that the callback was given.
use mathlib.Core.Path.{subst}
use optics_light.Buffer.{Heap}
use optics_light.Memory.{write_at-append}
use optics_light.Crest.Req.{CrestReq, crest_req_read}
use optics_light.Crest.Resp.{Mhd}
use optics_light.Crest.Service.{Crest, crest_process}
use optics_light.Crest.Body.{
  waits, Body, Strtoul, get_content_length, new_body, body_append, Turn, done, is_empty, new_resp,
  request_of, first_body, process, append_or_process, microhttpd_cb, calls,
}
use optics_light.Prelude.{
  ℕ, zero, suc, ◌+◌, ◌-◌, ◌^◌, ◌≤◌, ◌<◌, ◌≡◌, refl, ap, ap₂, sym, ◌∙◌, Option, none, some, List, [],
  ◌∷◌, ◌++◌, false, if◌then◌else◌, ltb, take, drop, length, replicate, arith, length-append,
  length-take, length-replicate, min, append_assoc, append-nil, lt→ltb,
}

take_more : (n k : ℕ) (t d : List ℕ) → n ≡ length t + k → take n (t ++ d) ≡ t ++ take k d
take_more n k [] d h = ap (λ m. take m d) (omega (arith, h))
take_more zero k (c ∷ t) d h = absurd (omega (arith, h))
take_more (suc n) k (c ∷ t) d h = ap (λ r. c ∷ r) (take_more n k t d (omega (arith, h)))

take_twice : (n : ℕ) (s d : List ℕ) → take n (take n s ++ d) ≡ take n (s ++ d)
take_twice zero s d = refl
take_twice (suc n) [] d = refl
take_twice (suc n) (c ∷ s) d = ap (λ r. c ∷ r) (take_twice n s d)

take-length : (k : ℕ) (d : List ℕ) → take (length (take k d)) d ≡ take k d
take-length zero d = refl
take-length (suc k) [] = refl
take-length (suc k) (c ∷ d) = ap (λ r. c ∷ r) (take-length k d)

take_all : (n : ℕ) (s : List ℕ) → length s ≤ n → take n s ≡ s
take_all zero [] h = refl
take_all zero (c ∷ s) h = absurd (omega arith)
take_all (suc n) [] h = refl
take_all (suc n) (c ∷ s) h = ap (λ r. c ∷ r) (take_all n s (omega arith))

drop-replicate : (k m n : ℕ) → n ≡ k + m → drop k (replicate {A = ℕ} n 0) ≡ replicate m 0
drop-replicate zero m n h = ap (λ i. replicate i 0) (omega (arith, h))
drop-replicate (suc k) m zero h = absurd (omega (arith, h))
drop-replicate (suc k) m (suc n) h = drop-replicate k m n (omega (arith, h))

-- The bytes, and zeros up to `n`.
unfoldable pub padded : ℕ → List ℕ → List ℕ
padded n s = s ++ replicate (n - length s) 0

-- A body of `n` bytes that `s` was put into.
pub record Filled (n : ℕ) (s : List ℕ) (body : Body) : Type 0 where
  pub cap : body.cap ≡ n
  pub fits : length s ≤ n
  pub pos : body.pos ≡ length s
  pub bytes : body.bytes ≡ padded n s

body_append-Filled :
    (n : ℕ) (s d : List ℕ) (body : Body)
    → Filled n s body
    → Filled n (take n (s ++ d)) (body_append body d)
unfolding body_append padded
body_append-Filled n s d body f =
    let k = n - length s in
    let w = take k d in
    let size : length w ≡ min k (length d) = length-take k d in
    let len : (if ltb body.cap (body.pos + length d) then body.cap - body.pos else length d)
        ≡ length w =
      ground (arith, size, f.cap, f.pos, f.fits) in
    let all = length-append s w in
    let blank = length-replicate {A = ℕ} k 0 in
    let more : take n (s ++ d) ≡ s ++ w = take_more n k s d (omega (arith, f.fits)) in
    rw more (record {
      cap = f.cap;
      fits = omega (arith, f.fits);
      pos = rw (len, f.pos) (sym all);
      bytes =
          rw (len, take-length k d, f.pos, f.bytes, append_assoc)
            (write_at-append s (replicate k 0) w (omega arith)
              ∙ ap (λ r. s ++ (w ++ r))
                  (drop-replicate (length w) (n - length (s ++ w)) k (omega (arith, f.fits))));
    })

abbrev pub concat : List (List ℕ) → List ℕ
concat [] = []
concat (d ∷ ds) = d ++ concat ds

unfoldable pub NotEmpty : List (List ℕ) → Type 0
NotEmpty [] = Unit {0}
NotEmpty (d ∷ ds) = (is_empty d ≡ false) × NotEmpty ds

-- The request that `crest_process` is given.
abbrev pub received : List ℕ → List ℕ → ℕ → List ℕ → CrestReq
received url method n content = record {
  url = url;
  method = method;
  data_bytes = padded n (take n content);
  data_len = n;
  data_pos = 0;
  path = none;
}

new_body-Filled : (n : ℕ) → Filled n [] (new_body n)
unfolding new_body padded
new_body-Filled n = record {
  cap = refl;
  fits = omega arith;
  pos = refl;
  bytes = ap (λ m. replicate m 0) (omega arith);
}

take_nil : (n : ℕ) → take {A = ℕ} n [] ≡ []
take_nil zero = refl
take_nil (suc n) = refl

first_body-some : (n : ℕ) → 0 < n → n < 2 ^ 63 → first_body n ≡ some (new_body n)
unfolding first_body
first_body-some n pos small = rw (lt→ltb 0 n pos, lt→ltb n (2 ^ 63) small) refl

reads :
    (url method : List ℕ) (n : ℕ) (content : List ℕ) (max : ℕ)
    → n ≤ max
    → crest_req_read (received url method n content) max ≡ padded n (take n content)
unfolding crest_req_read padded
reads url method n content max le =
    let t = take n content in
    let len : (if ltb (n - 0) max then n - 0 else max) ≡ n = ground arith in
    let size = length-append t (replicate (n - length t) 0) in
    let blank = length-replicate {A = ℕ} (n - length t) 0 in
    let cut = length-take n content in
    rw len (take_all n (t ++ replicate (n - length t) 0) (omega arith))

module _ {C W : Type 0} (heap : Heap) (mhd : Mhd) (strtoul : Strtoul) (crest : Crest C W)
    (world : W) (length_header : Option (List ℕ)) (url method : List ℕ) where
  abbrev pub run : Option Body → List (List ℕ) → Turn W
  run = calls heap mhd strtoul crest world length_header url method

  abbrev pub answered : CrestReq → Turn W
  answered req =
      done (crest_process heap mhd crest (record { req = req; resp = new_resp; world = world }))

  calls-Filled :
      (n : ℕ) (s : List ℕ) (body : Body) (chunks : List (List ℕ))
      → Filled n (take n s) body
      → NotEmpty chunks
      → run (some body) (chunks ++ ([] ∷ []))
        ≡ answered (received url method n (s ++ concat chunks))
  unfolding calls microhttpd_cb append_or_process process request_of is_empty NotEmpty
  calls-Filled n s body [] f h = rw append-nil (
      ap₂
        (λ (bytes : List ℕ) (len : ℕ). answered (record {
          url = url;
          method = method;
          data_bytes = bytes;
          data_len = len;
          data_pos = 0;
          path = none;
        }))
        f.bytes f.cap)
  calls-Filled n s body (d ∷ ds) f h =
      let next =
        subst (λ t. Filled n t (body_append body d)) (take_twice n s d)
          (body_append-Filled n (take n s) d body f) in
      rw (h.0, calls)
        (calls-Filled n (s ++ d) (body_append body d) ds next h.1
          ∙ ap (λ c. answered (received url method n c)) (append_assoc s d (concat ds)))

  -- The calls with bytes leave a body.
  calls-wait :
      (body : Body) (chunks : List (List ℕ))
      → NotEmpty chunks
      → (left : Body) × (run (some body) chunks ≡ waits (some left))
  unfolding calls microhttpd_cb append_or_process is_empty NotEmpty
  calls-wait body [] h = (body, refl)
  calls-wait body (d ∷ ds) h =
      let (left, rest) = calls-wait (body_append body d) ds h.1 in (left, rw (h.0, calls) rest)

  -- For a request whose Content-Length is between 1 and 2^63 - 1 and that comes as a first call without
  -- bytes, calls with bytes and a last call without, the callback waits after all calls but the last,
  -- so nothing is processed before; at the last call the service processes a request whose data are the
  -- bytes of all calls, cut to the length or filled up with zeros, and reading with room for them gives
  -- them.
  pub microhttpd_cb-received :
      (chunks : List (List ℕ))
      → let n = get_content_length strtoul length_header in
        0 < n
        → n < 2 ^ 63
        → NotEmpty chunks
        → (body : Body) × (run none ([] ∷ chunks) ≡ waits (some body))
          × (run none ([] ∷ (chunks ++ ([] ∷ [])))
              ≡ answered (received url method n (concat chunks)))
          × ((max : ℕ)
              → n ≤ max
              → crest_req_read (received url method n (concat chunks)) max
                ≡ padded n (take n (concat chunks)))
  unfolding calls microhttpd_cb is_empty
  microhttpd_cb-received chunks pos small h =
      let n = get_content_length strtoul length_header in
      let (body, first) = calls-wait (new_body n) chunks h in
      (
        body,
        rw (first_body-some n pos small, microhttpd_cb, calls) first,
        rw (first_body-some n pos small, microhttpd_cb, calls)
            (calls-Filled n [] (new_body n) chunks
              (subst (λ t. Filled n t (new_body n)) (sym (take_nil n)) (new_body-Filled n)) h),
        λ max le. reads url method n (concat chunks) max le,
      )
