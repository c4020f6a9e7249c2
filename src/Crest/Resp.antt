-- ===== src/Crest/Resp.antt =====
-- Responses: src/utils/crest/resp.c. A header is a copy of its value that the table knows by its
-- address; `values` is the memory of these copies, and `address` what `strdup` returns.
pub mod Headers
use optics_light.Buffer.{Buffer, Heap, empty_buffer, buffer_write}
use optics_light.Htable.{Htable, Table, htable_get, htable_put, htable_xchg}
use optics_light.Prelude.{
  ℕ, ◌==◌, Option, none, some, List, [], ◌∷◌, Bool, true, ◌&&◌, if◌then◌else◌, take,
}

-- What libmicrohttpd is asked to send.
pub record Answer : Type 0 where
  pub code : ℕ
  pub headers : List (List ℕ × List ℕ)
  pub content : List ℕ

-- `sent` are the answers queued for the connection, the last one first.
pub record CrestResp : Type 0 where
  pub headers : Htable
  pub values : ℕ → List ℕ
  pub body : Buffer
  pub sent : List Answer

-- Whether the calls of libmicrohttpd succeed.
pub record Mhd : Type 0 where
  pub create_response : List ℕ → Bool
  pub add_response_header : List ℕ → List ℕ → Bool
  pub queue_response : ℕ → Bool

-- `none` where an operation on the table does not return, with `fuel` for each of them.
unfoldable pub crest_resp_add_header : ℕ → ℕ → CrestResp → List ℕ → List ℕ → Option CrestResp
crest_resp_add_header fuel address resp key value =
    let values = λ (a : ℕ). if a == address then value else resp.values a in
    elim (htable_get fuel resp.headers key) [
      | none ↦ none
      | some (found, headers) ↦
          elim (if found.ok
            then htable_xchg fuel headers key address
            else htable_put fuel headers key address) [
              | none ↦ none
              | some (_, headers') ↦ some (record resp { headers = headers'; values = values })
            ]
    ]

-- The headers of a table, in the order of its buckets.
unfoldable pub header_list : Table → (ℕ → List ℕ) → List (List ℕ × List ℕ)
header_list [] values = []
header_list (b ∷ t) values = elim b.key [
  | none ↦ header_list t values
  | some key ↦ (key, values b.value) ∷ header_list t values
]

unfoldable pub all_added : Mhd → List (List ℕ × List ℕ) → Bool
all_added mhd [] = true
all_added mhd ((key, value) ∷ more) = mhd.add_response_header key value && all_added mhd more

-- `none` is an abort.
unfoldable pub crest_resp_send : Mhd → CrestResp → ℕ → Option CrestResp
crest_resp_send mhd resp code =
    let content = take resp.body.len resp.body.cells in
    let headers = header_list resp.headers.table resp.values in
    if mhd.create_response content && (all_added mhd headers && mhd.queue_response code)
    then some (record resp {
      body = empty_buffer;
      sent = record { code = code; headers = headers; content = content } ∷ resp.sent;
    })
    else none

module _ (heap : Heap) where
  unfoldable pub crest_resp_write : CrestResp → List ℕ → Option CrestResp
  crest_resp_write resp bytes = elim (buffer_write heap resp.body bytes) [
    | none ↦ none
    | some body ↦ some (record resp { body = body })
  ]

  unfoldable pub crest_resp_send_error : Mhd → CrestResp → ℕ → List ℕ → Option CrestResp
  crest_resp_send_error mhd resp code reason = elim (crest_resp_write resp (take 1024 reason)) [
    | none ↦ none
    | some written ↦ crest_resp_send mhd written code
  ]
