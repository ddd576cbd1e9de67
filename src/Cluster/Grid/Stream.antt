-- ===== src/Cluster/Grid/Stream.antt =====
-- internal/cluster/grid.go, readLoop: every call that waits on a connection is answered once.
use mathlib.Core.List.{append_assoc}
use gostore.Base.{
  ℕ, zero, suc, ◌+◌, ◌<◌, ◌≤◌, ◌≡◌, refl, ◌∙◌, arith, List, [], ◌∷◌, ◌++◌, map, true, false, none,
  some, length, Bytes, of_be, take, drop, length-read_full, ltb, ◌==◌, any, count_if,
  count_if-append, All, if◌then◌else◌, Bool-cases, Option-cases, inl, inr, read_full,
}
use gostore.Cluster.Grid.{
  GoError, GridReply, failed, decode_resp_payload, Frame, write_frame, read_frame, GridConn,
  delete_id, fail, on_frame, read_loop,
}
use gostore.Cluster.Grid.Codec.{IsFrame, read_frame-write_frame}

abbrev pub sent : List Frame → Bytes
sent [] = []
sent (f ∷ fs) = write_frame f ++ sent fs

abbrev pub on_frames : GridConn → List Frame → GridConn
on_frames g [] = g
on_frames g (f ∷ fs) = on_frames (on_frame g f) fs

length-read_payload :
    (n : ℕ) (bs payload rest : Bytes)
    → (if ltb 0 n then read_full n bs else some ([], bs)) ≡ some (payload, rest)
    → length rest ≤ length bs
length-read_payload n bs payload rest h = elim (Bool-cases (ltb 0 n)) [
  | inl e ↦ omega (arith, (length-read_full n bs payload rest (rw e at h)).1)
  | inr e ↦ ground (arith, e, h)
]

length-read_frame :
    (bs : Bytes) {f : Frame} {rest : Bytes}
    → read_frame bs ≡ some (f, rest)
    → length rest < length bs
unfolding read_frame
length-read_frame bs {f} {rest} h = elim (Option-cases (read_full 13 bs)) [
  | inl e ↦ absurd (cc (rw e at h))
  | inr ((hdr, r), e) ↦
      elim (Option-cases (
        if ltb 0 (of_be (take 4 (drop 9 hdr)))
        then read_full (of_be (take 4 (drop 9 hdr))) r
        else some ([], r))) [
          | inl e' ↦ absurd (cc (rw (e, e') at h))
          | inr ((payload, r'), e') ↦ ground (
            arith,
            rw (e, e') at h,
            (length-read_full 13 bs hdr r e).0,
            (length-read_full 13 bs hdr r e).1,
            length-read_payload (of_be (take 4 (drop 9 hdr))) r payload r' e',
          )
        ]
]

-- How often the call with an id waits or was answered.
abbrev waiting : ℕ → GridConn → ℕ
waiting i g = count_if (λ j. i == j) g.pending

abbrev pub answers : ℕ → GridConn → ℕ
answers i g = count_if (λ (r : ℕ × GridReply). i == r.0) g.handed

-- The calls that wait have different ids, as the keys of a map.
abbrev pub IsOnce : GridConn → Type 0
IsOnce g = (i : ℕ) → waiting i g ≤ 1

count_if-delete_id :
    (i j : ℕ) (js : List ℕ)
    → count_if (λ k. i == k) (delete_id j js) ≡ (if j == i then 0 else count_if (λ k. i == k) js)
unfolding delete_id
count_if-delete_id i j [] = ground arith
count_if-delete_id i j (k ∷ js) = ground (arith, count_if-delete_id i j js)

any-count_if : (i : ℕ) (js : List ℕ) → any (λ j. i == j) js ≡ true → 1 ≤ count_if (λ j. i == j) js
any-count_if i [] h = cc
any-count_if i (j ∷ js) h = ground (arith, any-count_if i js)

on_frame-IsOnce : (g : GridConn) (f : Frame) → IsOnce g → IsOnce (on_frame g f)
unfolding on_frame
on_frame-IsOnce g f h i = ground (arith, count_if-delete_id i f.id g.pending, h i)

on_frame-total :
    (g : GridConn) (f : Frame) (i : ℕ)
    → IsOnce g
    → waiting i (on_frame g f) + answers i (on_frame g f) ≡ waiting i g + answers i g
unfolding on_frame
on_frame-total g f i h = ground (
  arith,
  count_if-delete_id i f.id g.pending,
  h i,
  any-count_if i g.pending,
  count_if-append (λ (r : ℕ × GridReply). i == r.0) g.handed
      ((f.id, decode_resp_payload f.payload) ∷ []),
)

count_if-failed :
    (i : ℕ) (e : GoError) (js : List ℕ)
    → count_if (λ (r : ℕ × GridReply). i == r.0) (map (λ j. (j, failed e)) js)
      ≡ count_if (λ j. i == j) js
count_if-failed i e [] = refl
count_if-failed i e (j ∷ js) = ground (arith, count_if-failed i e js)

fail-total : (g : GridConn) (e : GoError) (i : ℕ) → answers i (fail g e) ≡ waiting i g + answers i g
unfolding fail
fail-total g e i = ground (
  arith,
  count_if-append (λ (r : ℕ × GridReply). i == r.0) g.handed (map (λ j. (j, failed e)) g.pending),
  count_if-failed i e g.pending,
)

-- Whatever a connection carries before it ends, in at most one round more than it has bytes the loop
-- of the client is done: the connection is down, no call waits, and each call that waited has been
-- answered exactly once more than before.
pub read_loop-answers_all :
    (fuel : ℕ) (reason : GoError) (g : GridConn) (bs : Bytes)
    → length bs < fuel
    → IsOnce g
    → ((read_loop fuel reason g bs).up ≡ false)
      × ((read_loop fuel reason g bs).pending ≡ [])
      × ((i : ℕ) → answers i (read_loop fuel reason g bs) ≡ waiting i g + answers i g)
unfolding read_loop
read_loop-answers_all zero reason g bs h once = absurd (omega arith)
read_loop-answers_all (suc fuel) reason g bs h once = elim (Option-cases (read_frame bs)) [
  | inl e ↦ rw (e, read_loop) (unfold fail in (refl, refl, fail-total g reason))
  | inr ((f, rest), e) ↦
      let (down, none_left, total) =
        read_loop-answers_all fuel reason (on_frame g f) rest
          (omega (arith, length-read_frame bs e)) (on_frame-IsOnce g f once) in
      rw (e, read_loop) (down, none_left, λ i. total i ∙ on_frame-total g f i once)
]

-- The frames that were written, and a rest that is no whole frame, are handled one after the other.
pub read_loop-sent :
    (fuel : ℕ) (reason : GoError) (g : GridConn) (fs : List Frame) (partial : Bytes)
    → length fs < fuel
    → All IsFrame fs
    → read_frame partial ≡ none
    → read_loop fuel reason g (sent fs ++ partial) ≡ fail (on_frames g fs) reason
unfolding read_loop
read_loop-sent zero reason g fs partial h all cut = absurd (omega arith)
read_loop-sent (suc fuel) reason g [] partial h all cut = rw (cut, read_loop) refl
read_loop-sent (suc fuel) reason g (f ∷ fs) partial h (hf, all) cut =
    rw
      (
        append_assoc (write_frame f) (sent fs) partial,
        read_frame-write_frame f (sent fs ++ partial) hf,
        read_loop,
      )
      (read_loop-sent fuel reason (on_frame g f) fs partial (omega arith) all cut)
