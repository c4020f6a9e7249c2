-- ===== src/Tests/Service.antt =====
-- The HTTP service.
use optics_light.Buffer.{Heap}
use optics_light.Buffer.Content.{Holds-empty}
use optics_light.Htable.{str_eq}
use optics_light.Htable.Rehash.{empty-IsValid, view-empty}
use optics_light.Crest.Path.{
  count_from, fill_from, path_new, item_string, path_token_type, max_path_len,
}
use optics_light.Crest.Path.Items.{IsPath, path_rest, path_new-segments}
use optics_light.Crest.Path.Segments.{segments}
use optics_light.Crest.Router.{
  Token, new_router, router_add, router_route, add_entry, place, route_entry,
}
use optics_light.Crest.Router.Patterns.{candidates, first}
use optics_light.Crest.Router.Refine.{add_all, insert_all, router_refines}
use optics_light.Crest.Req.{
  crest_get, is_method, crest_req_get_method, crest_req_get_path, crest_req_read,
}
use optics_light.Crest.Resp.{CrestResp, Mhd, crest_resp_add_header}
use optics_light.Crest.Resp.Headers.{HasHeader, crest_resp_add_header_lem}
use optics_light.Crest.Service.{
  Exchange, CrestRes, Crest, CrestResourceCb, crest_new, crest_add, callback, run_test,
  crest_process,
}
use optics_light.Crest.Service.Status.{
  Verdicts, Accepts, IsResp, Sends, Refused, first_code, refusals, success,
}
use optics_light.Crest.Service.Process.{
  Says, Handles, with_path, crest_process-Sends, crest_process-refuses,
}
use optics_light.Crest.Body.{Body, waits, Strtoul, get_content_length, is_empty, new_resp}
use optics_light.Crest.Body.Received.{
  NotEmpty, concat, padded, received, run, answered, microhttpd_cb-received,
}
use optics_light.Htable.{same_key}
use optics_light.Buffer.Content.{Holds}
use optics_light.Crest.Resp.Headers.{header}
use optics_light.Crest.Service.{crest_ok}
use optics_light.Lens.{counter_type, histo_type}
use optics_light.Poller.{counter_value, histo_value}
use optics_light.Rest.{Rest}
use optics_light.Rest.Get.{Prints, current_rows, rest_get}
use optics_light.Rest.Get.Json.{print, object, rows_json}
use optics_light.Rest.Get.Answer.{content_type, text_plain, rest_get_lem}
use optics_light.Prelude.{
  ◌+◌, if◌then◌else◌, ℕ, suc, ◌≤◌, ◌≡◌, refl, none, some, List, [], ◌∷◌, ◌++◌, true, false, arith,
  take, replicate, length-replicate,
}

-- `/a//b?c`
abbrev text : List ℕ
text = b'/' ∷ b'a' ∷ b'/' ∷ b'/' ∷ b'b' ∷ b'?' ∷ b'c' ∷ []

path_new-segments_example :
    IsPath (path_new text) × (path_rest (path_new text) ≡ segments (take max_path_len text))
path_new-segments_example = path_new-segments text (
  omega arith,
  (omega arith, (omega arith, (omega arith, (omega arith, (omega arith, (omega arith, tt)))))),
)

abbrev letter : Token
letter = b'a' ∷ []

abbrev additions : List (List Token × ℕ)
additions =
    (letter ∷ [], 1)
    ∷ ((b':' ∷ []) ∷ [], 2)
    ∷ (letter ∷ [], 3)
    ∷ (letter ∷ (b'*' ∷ []) ∷ [], 4)
    ∷ []

router_refines_example :
    let spec = insert_all additions (λ _. none) in
    ((add_all additions new_router).0 ≡ spec.0)
    × (router_route (letter ∷ letter ∷ []) (add_all additions new_router).1
        ≡ first spec.1 (candidates (letter ∷ letter ∷ [])))
router_refines_example = router_refines additions (letter ∷ letter ∷ [])

abbrev zeros : Heap
zeros = record { stale = λ n. replicate n 0; length-stale = λ n. length-replicate n 0 }

abbrev willing : Mhd
willing = record {
  create_response = λ _. true;
  add_response_header = λ _ _. true;
  queue_response = λ _. true;
}

willing-Accepts : Accepts willing
willing-Accepts = record { creates = λ _. refl; adds = λ _ _. refl; queues = λ _. refl }

-- A resource at `/a` that counts how often it is read.
abbrev counts : CrestResourceCb ℕ ℕ
counts context x = (0, record x { world = suc x.world })

abbrev resource : CrestRes ℕ ℕ
resource = record {
  path = b'/' ∷ letter;
  context = 0;
  authorized = none;
  forbidden = some (λ _ req w. (false, (req, w)));
  accepts = none;
  exists = none;
  get = some counts;
  put = none;
  post = none;
  delete = none;
}

abbrev service : Crest ℕ ℕ
service = (crest_add crest_new resource).1

abbrev asked : Exchange ℕ
asked = record {
  req = record {
    url = b'/' ∷ letter;
    method = b'G' ∷ b'E' ∷ b'T' ∷ [];
    data_bytes = [];
    data_len = 0;
    data_pos = 0;
    path = none;
  };
  resp = new_resp;
  world = 0;
}

abbrev verdicts : Verdicts
verdicts = record { authorized = true; forbidden = false; accepts = true; exists = true }

empty-IsResp : IsResp new_resp
empty-IsResp = record { content = []; holds = Holds-empty }

counts-Handles : Handles counts 0 0
counts-Handles = record { returns = λ _. refl; keeps = λ _ is. is; silent = λ _. refl }

program : Unit {0}
unfolding count_from fill_from path_new item_string path_token_type path_rest router_add
    router_route route_entry add_entry place str_eq is_method crest_req_get_method
    crest_req_get_path crest_new crest_add callback run_test Says
program = tt

crest_process-Sends_example :
    Sends asked
      (first_code (refusals verdicts crest_get 0) (success crest_get true))
      (crest_process zeros willing service asked)
unfolding program
crest_process-Sends_example =
    crest_process-Sends zeros willing service asked resource counts verdicts 0 willing-Accepts
      empty-IsResp refl refl (λ _. refl) (λ _. refl) (λ _. refl) (λ _. refl) counts-Handles
      (omega arith)

-- A deletion, for which there is no callback.
abbrev deleted : Exchange ℕ
deleted = record asked {
  req = record {
    url = b'/' ∷ letter;
    method = b'D' ∷ b'E' ∷ b'L' ∷ b'E' ∷ b'T' ∷ b'E' ∷ [];
    data_bytes = [];
    data_len = 0;
    data_pos = 0;
    path = none;
  };
}

crest_process-refuses_example :
    let route = router_route (path_rest (crest_req_get_path deleted.req).0) service.routes in
    (route ≡ none → Refused (with_path deleted) 404 (crest_process zeros willing service deleted))
    × ((res : CrestRes ℕ ℕ)
        → route ≡ some res
        → callback res (crest_req_get_method deleted.req) ≡ none
        → Refused (with_path deleted) 501 (crest_process zeros willing service deleted))
crest_process-refuses_example =
    crest_process-refuses zeros willing service deleted willing-Accepts empty-IsResp

-- A body of three bytes that comes as two and two.
abbrev three : Strtoul
three = record { number = λ _. 3; is_erange = λ _. false }

abbrev chunks : List (List ℕ)
chunks = (1 ∷ 2 ∷ []) ∷ (3 ∷ 4 ∷ []) ∷ []

numbers : Unit {0}
unfolding get_content_length NotEmpty is_empty
numbers = tt

microhttpd_cb-received_example :
    (body : Body) × (run zeros willing three service 0 (some []) text letter none ([] ∷ chunks)
      ≡ waits (some body))
    × (run zeros willing three service 0 (some []) text letter none ([] ∷ (chunks ++ ([] ∷ [])))
        ≡ answered zeros willing three service 0
            (some [])
            text
            letter
            (received text letter (get_content_length three (some [])) (concat chunks)))
    × ((max : ℕ)
        → get_content_length three (some []) ≤ max
        → crest_req_read
            (received text letter (get_content_length three (some [])) (concat chunks))
            max
          ≡ padded
              (get_content_length three (some []))
              (take (get_content_length three (some [])) (concat chunks)))
unfolding numbers
microhttpd_cb-received_example =
    microhttpd_cb-received zeros willing three service 0 (some []) text letter chunks (omega arith)
      (omega arith) (refl, (refl, tt))

crest_resp_add_header_lem_example :
    (out : CrestResp) × (crest_resp_add_header 1 7 new_resp letter text ≡ some out)
    × HasHeader new_resp letter text out
crest_resp_add_header_lem_example =
    crest_resp_add_header_lem new_resp letter text 7 0 empty-IsValid (omega arith)
      (λ q. ground (arith, view-empty q))

-- Numbers as one digit.
abbrev digits : Prints ℕ
digits = record { u64 = λ n. (48 + n) ∷ []; g = λ n. (48 + n) ∷ [] }

abbrev polled : Rest ℕ
polled = record {
  current = some (record {
    cap = 128;
    rows =
        record { key = letter; type = counter_type; value = counter_value 5 }
        ∷ record {
          key = b'h' ∷ [];
          type = histo_type;
          value = histo_value (record {
            buckets_len = 2;
            buckets = 1 ∷ 4 ∷ [];
            below = 7;
            above = 9;
            counts = 3 ∷ [];
          });
        }
        ∷ [];
  });
  build = none;
}

rest_get_lem_example :
    (out : CrestResp) × (rest_get zeros digits 1 7 polled new_resp ≡ some (crest_ok, out))
    × Holds
        (empty-IsResp.content ++ print (object (rows_json digits (current_rows polled))))
        out.body
    × (out.sent ≡ [])
    × ((q : List ℕ)
        → header out q ≡ (if same_key content_type q then some text_plain else header new_resp q))
rest_get_lem_example =
    rest_get_lem zeros digits 0 7 polled new_resp empty-IsValid (omega arith)
      (λ q. ground (arith, view-empty q)) empty-IsResp
