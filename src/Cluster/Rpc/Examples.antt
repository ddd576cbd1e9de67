-- ===== src/Cluster/Rpc/Examples.antt =====
-- A disk in memory, a stand-in for JSON, and a connection, on which the theorems about the transport
-- between nodes are run.
use mathlib.Core.List.{append_assoc, append-nil}
use gostore.Base.{
  All, IsUtf8, valid_utf8, ℕ, zero, suc, ◌+◌, ◌<◌, ◌≤◌, ◌≡◌, refl, arith, Text, List, [], ◌∷◌, ◌++◌,
  true, false, Option, none, some, codes, Bytes, length, lookup, insert, delete, text_eq, Assoc,
  read_full, put_be, get_be, ◌>>=◌, All, count_if, ◌==◌, format_int, parse_int,
}
use gostore.Cluster.Breaker.{new_breaker}
use gostore.Cluster.Grid.{
  GoError, sentinel, file_not_found, new_error, ok, err, Json, Values, IsExact, Frame, f_resp,
  read_frame, write_frame, GridConn, read_loop, u32, encode_call_payload, decode_call_payload,
  on_frame, encode_resp_payload, body, failed, fail,
}
use gostore.Cluster.Grid.Stream.{sent, IsOnce, answers, read_loop-answers_all, read_loop-sent}
use gostore.Cluster.Rpc.{DiskRpc, Wire, serve_call, dispatch_unary, get_value}
use gostore.Cluster.Rpc.Remote.{
  DiskCall, write_all, remote_call, call_payload, request_of, base_q, done,
}
use gostore.Cluster.Rpc.Queries.{HasUtf8}
use gostore.Cluster.Rpc.Transparent.{IsExactWire, remote_call_transparent}
use gostore.Cluster.Rpc.Dial.{
  Link, other, not_connected, broken, transport_error, Weather, unary_all, IsErr,
  unreachable_never_trips,
}

-- A way to write a value so that it can be read back from the front of a text.
record Scheme {ℓ} (A : Type ℓ) : Type ℓ where
  enc : A → Bytes
  dec : Bytes → Option (A × Bytes)
  law : (x : A) (r : Bytes) → dec (enc x ++ r) ≡ some (x, r)

abbrev number : Scheme ℕ
number = record {
  enc = λ n. n ∷ [];
  dec = λ b. elim b [ [] ↦ none | n ∷ r ↦ some (n, r) ];
  law = λ n r. refl;
}

module _ {ℓ} {A : Type ℓ} (s : Scheme A) where
  enc_all : List A → Bytes
  enc_all [] = []
  enc_all (x ∷ xs) = s.enc x ++ enc_all xs

  dec_all : ℕ → Bytes → Option (List A × Bytes)
  dec_all zero b = some ([], b)
  dec_all (suc n) b = do (x, r) ← s.dec b; (xs, r') ← dec_all n r; some (x ∷ xs, r')

  dec_all-enc_all : (xs : List A) (r : Bytes) → dec_all (length xs) (enc_all xs ++ r) ≡ some (xs, r)
  unfolding dec_all enc_all
  dec_all-enc_all [] r = refl
  dec_all-enc_all (x ∷ xs) r =
      rw (append_assoc (s.enc x) (enc_all xs) r, s.law x (enc_all xs ++ r), dec_all-enc_all xs r)
        refl

  abbrev list_of : Scheme (List A)
  list_of = record {
    enc = λ xs. length xs ∷ enc_all xs;
    dec = λ b. elim b [ [] ↦ none | n ∷ r ↦ dec_all n r ];
    law = dec_all-enc_all;
  }

  -- A text that is read to its end.
  abbrev json_of : Json A
  json_of = record {
    marshal = s.enc;
    unmarshal = λ b. elim (s.dec b) [ none ↦ err (new_error []) | some (x, r) ↦ ok x ];
  }

  json_of-IsExact : (P : A → Type 0) → IsExact P json_of
  json_of-IsExact P x h = let whole = rw (append-nil (s.enc x)) at (s.law x []) in rw whole refl

module _ {ℓ κ} {A : Type ℓ} {B : Type κ} (s : Scheme A) (t : Scheme B) where
  abbrev pair_of : Scheme (A × B)
  pair_of = record {
    enc = λ p. s.enc p.0 ++ t.enc p.1;
    dec = λ b. do
      (x, r) ← s.dec b
      (y, r') ← t.dec r
      some ((x, y), r');
    law = λ p r.
        rw (append_assoc (s.enc p.0) (t.enc p.1) r, s.law p.0 (t.enc p.1 ++ r), t.law p.1 r) refl;
  }

abbrev texts : Scheme (List Text)
texts = list_of (list_of number)

abbrev values : Scheme Values
values = list_of (pair_of (list_of number) texts)

abbrev stand_in : Wire ℕ ℕ
stand_in = record {
  values = json_of values;
  vol = json_of number;
  vols = json_of (list_of number);
  names = json_of texts;
  disk = json_of number;
}

-- A disk that keeps the files of all its buckets under one name each.
abbrev memory : DiskRpc (Assoc Bytes) ℕ ℕ
memory = record {
  make_vol = λ d b. (d, none);
  stat_vol = λ d b. ok 7;
  list_vols = λ d. ok (7 ∷ []);
  delete_vol = λ d b force. (d, none);
  write_all = λ d b o x. (insert (b ++ o) x d, none);
  read_all =
      λ d b o. elim (lookup (b ++ o) d) [ none ↦ err (sentinel file_not_found) | some x ↦ ok x ];
  rename_dir = λ d sb so db dob. (d, none);
  delete = λ d b o recursive. (delete (b ++ o) d, none);
  list_dir = λ d b dir. ok [];
  disk_info = λ d. ok 9;
}

-- Every number is kept.
abbrev AnyNumber : ℕ → Type 0
AnyNumber n = Unit

stand_in-IsExactWire : IsExactWire memory stand_in AnyNumber AnyNumber
stand_in-IsExactWire = (
  λ q h. (q, json_of-IsExact values HasUtf8 q h, λ k. refl),
  json_of-IsExact number AnyNumber,
  json_of-IsExact (list_of number) (All AnyNumber),
  json_of-IsExact texts (All IsUtf8),
  json_of-IsExact number AnyNumber,
)

-- Two disks, of which the second has a file.
abbrev two_disks : List (Assoc Bytes)
two_disks = [] ∷ ((codes "b/x", 1 ∷ 2 ∷ []) ∷ []) ∷ []

abbrev write_y : DiskCall
write_y = write_all (codes "b/") (codes "y") (3 ∷ [])

write_y-short : length (call_payload memory stand_in 1 write_y) < u32
unfolding request_of base_q format_int encode_call_payload text_eq enc_all put_be insert lookup
write_y-short = omega arith

answer-short :
    length (serve_call memory stand_in two_disks (call_payload memory stand_in 1 write_y)).1 < u32
unfolding request_of base_q format_int encode_call_payload text_eq enc_all put_be insert lookup
    serve_call decode_call_payload dec_all get_be get_value parse_int encode_resp_payload
    dispatch_unary
answer-short = omega arith

remote_call_transparent_example :
    remote_call memory stand_in two_disks 1 42 write_y
    ≡ some ([] ∷ ((codes "b/x", 1 ∷ 2 ∷ []) ∷ (codes "b/y", 3 ∷ []) ∷ []) ∷ [], ok done)
unfolding insert text_eq valid_utf8
remote_call_transparent_example =
    remote_call_transparent memory stand_in AnyNumber AnyNumber stand_in-IsExactWire two_disks 1 42
      _ write_y refl (omega arith) (omega arith) (refl, refl) tt write_y-short answer-short

-- A connection on which calls 5 and 6 wait: it carries the answer to call 6, and ends in the middle of
-- another frame.
abbrev waiting_conn : GridConn
waiting_conn = record { up = true; pending = 5 ∷ 6 ∷ []; handed = [] }

waiting_conn-IsOnce : IsOnce waiting_conn
waiting_conn-IsOnce i = ground arith

abbrev answer_6 : Frame
answer_6 = record { typ = f_resp; id = 6; payload = 0 ∷ 0 ∷ 0 ∷ 0 ∷ 0 ∷ 0 ∷ 77 ∷ [] }

abbrev cut_off : Bytes
cut_off = 2 ∷ 0 ∷ 0 ∷ []

abbrev eof : GoError
eof = new_error (codes "EOF")

read_loop-answers_all_example :
    ((read_loop 30 eof waiting_conn (write_frame answer_6 ++ cut_off)).up ≡ false)
    × ((read_loop 30 eof waiting_conn (write_frame answer_6 ++ cut_off)).pending ≡ [])
    × ((i : ℕ)
        → answers i (read_loop 30 eof waiting_conn (write_frame answer_6 ++ cut_off))
          ≡ count_if (λ j. i == j) (5 ∷ 6 ∷ []) + 0)
unfolding write_frame put_be
read_loop-answers_all_example =
    read_loop-answers_all 30 eof waiting_conn (write_frame answer_6 ++ cut_off) (omega arith)
      waiting_conn-IsOnce

cut_off-none : read_frame cut_off ≡ none
unfolding read_frame read_full
cut_off-none = refl

read_loop-sent_example :
    read_loop 2 eof waiting_conn (sent (answer_6 ∷ []) ++ cut_off)
    ≡ record { up = false; pending = []; handed = (6, body (77 ∷ [])) ∷ (5, failed eof) ∷ [] }
unfolding fail on_frame get_be
read_loop-sent_example =
    read_loop-sent 2 eof waiting_conn (answer_6 ∷ []) cut_off (omega arith)
      ((omega arith, omega arith, omega arith), tt) cut_off-none

-- A node that refuses connections, called twice, 30 seconds apart.
abbrev refused_dial : GoError
refused_dial = new_error (codes "connection refused")

abbrev storm : ℕ → Weather
storm t = record {
  now = t;
  dialled = not_connected (other refused_dial);
  exchanged = broken eof;
  http = transport_error refused_dial;
}

abbrev dead_link : Link
dead_link = record { up = false; last_dial = 0; dial_err = some (other refused_dial) }

abbrev two_calls : List Weather
two_calls = storm 30000000000 ∷ storm 60000000000 ∷ []

unreachable_never_trips_example :
    ((unary_all new_breaker dead_link two_calls).0.fails ≤ 0)
    × All IsErr (unary_all new_breaker dead_link two_calls).2
unreachable_never_trips_example =
    unreachable_never_trips new_breaker dead_link two_calls (omega arith)
      (refl, (refused_dial, refl)) ((refused_dial, refl), ((refused_dial, refl), tt))
