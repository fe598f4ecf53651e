-- ===== src/Session/StreamMap/InPlace.antt =====
-- Changes of the streams of a map in place (spdy_session.cc) keep its invariant.
use mod_spdy.Common.{ℕ, ◌≡◌, refl, sym, ap₂, ℤ, List, [], ◌∷◌, map, some, arith}
use mod_spdy.Frame.{Frame}
use mod_spdy.PriorityQueue.{PriorityQueue}
use mod_spdy.Protocol.{WindowSizes}
use mod_spdy.Stream.{
  Stream, abort_silently, adjust_output_window_size, post_input_frame, abort_with_rst_stream,
}
use mod_spdy.Session.StreamMap.{
  StreamMap, find, update, adjust_all, put_stream, abort_all_silently,
  adjust_all_output_window_sizes,
}
use mod_spdy.Session.StreamMap.Valid.{IsValid, ids, SameIds-IsValid}

pub find-stream_id :
    (id : ℕ) (ts : List Stream) (t : Stream) → find id ts ≡ some t → t.stream_id ≡ id
unfolding find
find-stream_id id [] t e = cc
find-stream_id id (u ∷ ts) t e = ground (arith, find-stream_id id ts t)

ids-update : (t : Stream) (ts : List Stream) → ids (update t ts) ≡ ids ts
unfolding update
ids-update t [] = refl
ids-update t (u ∷ ts) = ground (arith, ids-update t ts)

ids-abort_all : (ts : List Stream) → ids (map abort_silently ts) ≡ ids ts
unfolding abort_silently
ids-abort_all [] = refl
ids-abort_all (t ∷ ts) = rw (ids-abort_all ts)

pub adjust-stream_id :
    (sizes : WindowSizes) (delta : ℤ) (t : Stream) (q : PriorityQueue Frame)
    → (adjust_output_window_size sizes delta t q).0.stream_id ≡ t.stream_id
unfolding adjust_output_window_size abort_with_rst_stream abort_silently
adjust-stream_id sizes delta t q = ground arith

ids-adjust_all :
    (sizes : WindowSizes) (delta : ℤ) (ts : List Stream) (q : PriorityQueue Frame)
    → ids (adjust_all sizes delta ts q).0 ≡ ids ts
unfolding adjust_all
ids-adjust_all sizes delta [] q = refl
ids-adjust_all sizes delta (t ∷ ts) q =
    ap₂ ◌∷◌ (adjust-stream_id sizes delta t q)
      (ids-adjust_all sizes delta ts (adjust_output_window_size sizes delta t q).1)

pub put_stream-IsValid :
    {bound limit : ℕ} (t : Stream) (m : StreamMap)
    → IsValid bound limit m
    → IsValid bound limit (put_stream t m)
unfolding put_stream
put_stream-IsValid t m v = SameIds-IsValid m _ (sym (ids-update t m.tasks)) refl v

pub abort_all_silently-IsValid :
    {bound limit : ℕ} (m : StreamMap)
    → IsValid bound limit m
    → IsValid bound limit (abort_all_silently m)
unfolding abort_all_silently
abort_all_silently-IsValid m v = SameIds-IsValid m _ (sym (ids-abort_all m.tasks)) refl v

pub adjust_all-IsValid :
    {bound limit : ℕ} (sizes : WindowSizes) (delta : ℤ) (m : StreamMap) (q : PriorityQueue Frame)
    → IsValid bound limit m
    → IsValid bound limit (adjust_all_output_window_sizes sizes delta m q).0
unfolding adjust_all_output_window_sizes
adjust_all-IsValid sizes delta m q v =
    SameIds-IsValid m _ (sym (ids-adjust_all sizes delta m.tasks q)) refl v

pub post_input_frame-stream_id :
    (f : Frame) (t : Stream) (q : PriorityQueue Frame)
    → (post_input_frame f t q).0.stream_id ≡ t.stream_id
unfolding post_input_frame abort_silently
post_input_frame-stream_id f t q = ground arith
