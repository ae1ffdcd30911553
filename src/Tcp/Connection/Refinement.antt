-- ===== src/Tcp/Connection/Refinement.antt =====
-- src/src/tcp/Connection.cpp: the bounds of its reads, and its reads as steps of the receiver of Stream.
use nil_service.Common.{
  ℕ, ◌+◌, ◌≤◌, ◌<◌, ◌≡◌, sym, ap, ◌∙◌, List, [], ◌∷◌, ◌++◌, arith, length, take, drop, Bytes, ◌==◌,
  length-append, length-take, take-append_of, Bool-cases, ==→eq, inl, inr, All, add64, u64_mod,
  flatten, read-take,
}
use nil_service.Codec.{Endian, number}
use nil_service.Codec.ByteOrder.{from_array_lem}
use nil_service.Stream.{Signal, message, frames, deliveries, Partial, start, grown, take_bytes}
use nil_service.Stream.Decoding.{
  take_bytes-append, take_bytes-chunk, take_bytes-frames, take_bytes-nil,
}
use nil_service.Tcp.Connection.{
  Reading, header, body, closed, Connection, payload_size, received_at, store_received, read_body,
  received, header_received, body_received, complete_at, complete, complete_all,
}
use nil_service.Tcp.Connection.Bounds.{
  InBounds, IsValid, FitsRead, Fits, length-received_at, complete-IsValid,
}

-- What has been received stands in the front of the buffer.
take-received_at :
    (pos : ℕ) (bytes buf : Bytes)
    → pos + length bytes ≤ length buf
    → take (pos + length bytes) (received_at pos bytes buf) ≡ take pos buf ++ bytes
take-received_at pos bytes buf h =
    take-append_of (pos + length bytes) (take pos buf ++ bytes) (drop (pos + length bytes) buf)
      (omega (arith, length-append (take pos buf) bytes, length-take pos buf (omega arith)))

abbrev view_at : Reading → Bytes → Partial
view_at (header pos size) buf = Partial.header (take pos buf)
view_at (body pos size) buf = Partial.body size (take pos buf)
view_at closed buf = Partial.dead

-- The message that is being received, as Stream sees it.
abbrev pub view : Connection → Partial
view c = view_at c.reading c.r_buffer

abbrev pub seen : Connection × List Signal → Partial × List Signal
seen r = (view r.0, r.1)

payload_size_lem :
    (e : Endian) (buf got : Bytes)
    → 8 ≤ length buf
    → take 8 buf ≡ got
    → payload_size e buf ≡ number got
unfolding payload_size
payload_size_lem e buf got h k = rw (from_array_lem e 8 buf, read-take 8 buf h, k, payload_size)

seen-read_body :
    (limit n : ℕ) (c : Connection)
    → limit + 8 < u64_mod
    → length c.r_buffer ≡ limit + 8
    → seen (read_body 0 n c) ≡ start limit n
unfolding read_body start
seen-read_body limit n c h k = ground arith

read_body-quiet :
    (limit pos n : ℕ) (c : Connection)
    → limit + 8 < u64_mod
    → length c.r_buffer ≡ limit + 8
    → 0 < n
    → n ≤ limit
    → read_body pos n c ≡ (record c { reading = body pos n }, [])
unfolding read_body
read_body-quiet limit pos n c h k p q = ground arith

length-received :
    (pos : ℕ) (bytes buf : Bytes)
    → pos ≤ length buf
    → length (take pos buf ++ bytes) ≡ pos + length bytes
length-received pos bytes buf h =
    omega (arith, length-append (take pos buf) bytes, length-take pos buf h)

add64_small : (a b : ℕ) → a + b < u64_mod → add64 a b ≡ a + b
add64_small a b h = omega arith

seen-header_received :
    (e : Endian) (limit pos : ℕ) (bytes : Bytes) (c : Connection)
    → limit + 8 < u64_mod
    → length c.r_buffer ≡ limit + 8
    → pos + length bytes ≤ 8
    → seen (header_received e pos 8 (length bytes) (store_received pos bytes c))
      ≡ grown limit (Partial.header (take pos c.r_buffer ++ bytes))
unfolding header_received grown
seen-header_received e limit pos bytes c h k fits =
    rw
      (
        add64_small pos (length bytes) (omega arith),
        length-received pos bytes c.r_buffer (omega arith),
      )
      (elim (Bool-cases (pos + length bytes == 8)) [
        | inl full ↦ rw full (
            rw
              (payload_size_lem e (received_at pos bytes c.r_buffer) (take pos c.r_buffer ++ bytes)
                (omega (arith, long))
                (ap (λ n. take n (received_at pos bytes c.r_buffer)) (sym (==→eq _ _ full))
                  ∙ front))
              (seen-read_body limit (number (take pos c.r_buffer ++ bytes))
                (store_received pos bytes c) h (long ∙ k)))
        | inr part ↦ rw (part, front)
      ])
  where
    long : length (received_at pos bytes c.r_buffer) ≡ length c.r_buffer
    long = length-received_at pos bytes c.r_buffer (omega arith)

    front :
        take (pos + length bytes) (received_at pos bytes c.r_buffer) ≡ take pos c.r_buffer ++ bytes
    front = take-received_at pos bytes c.r_buffer (omega arith)

seen-body_received :
    (limit pos size : ℕ) (bytes : Bytes) (c : Connection)
    → limit + 8 < u64_mod
    → length c.r_buffer ≡ limit + 8
    → 0 < length bytes
    → size ≤ limit
    → pos + length bytes ≤ size
    → seen (body_received pos size (length bytes) (store_received pos bytes c))
      ≡ grown limit (Partial.body size (take pos c.r_buffer ++ bytes))
unfolding body_received grown
seen-body_received limit pos size bytes c h k some_ small fits =
    rw
      (
        add64_small pos (length bytes) (omega arith),
        length-received pos bytes c.r_buffer (omega arith),
      )
      (elim (Bool-cases (pos + length bytes == size)) [
        | inl full ↦ rw full (
            ap (λ m. (Partial.header [], message m ∷ []))
              (ap (λ n. take n (received_at pos bytes c.r_buffer)) (sym (==→eq _ _ full)) ∙ front))
        | inr part ↦ rw (
          part,
          read_body-quiet limit (pos + length bytes) size (store_received pos bytes c) h (long ∙ k)
              (omega arith) small,
          front,
        )
      ])
  where
    long : length (received_at pos bytes c.r_buffer) ≡ length c.r_buffer
    long = length-received_at pos bytes c.r_buffer (omega arith)

    front :
        take (pos + length bytes) (received_at pos bytes c.r_buffer) ≡ take pos c.r_buffer ++ bytes
    front = take-received_at pos bytes c.r_buffer (omega arith)

-- A completed read acts on the message being received as its bytes do, one after the other.
complete_at-take_bytes :
    (e : Endian) (limit : ℕ) (r : Reading) (chunk : Bytes) (c : Connection)
    → limit + 8 < u64_mod
    → length c.r_buffer ≡ limit + 8
    → InBounds limit r
    → FitsRead r (length chunk)
    → seen (complete_at e r (received chunk) c) ≡ take_bytes limit chunk (view_at r c.r_buffer)
unfolding complete_at
complete_at-take_bytes e limit closed chunk c h k b fits = absurd fits
complete_at-take_bytes e limit (header pos size) [] c h k b fits = absurd (omega arith)
complete_at-take_bytes e limit (body pos size) [] c h k b fits = absurd (omega arith)
complete_at-take_bytes e limit (header pos size) (x ∷ xs) c h k b fits = rw b.0 (
    seen-header_received e limit pos (x ∷ xs) c h k (omega arith)
    ∙ sym (
        take_bytes-chunk limit x xs (Partial.header (take pos c.r_buffer))
          (omega (arith, length-take pos c.r_buffer (omega arith)))))
complete_at-take_bytes e limit (body pos size) (x ∷ xs) c h k b fits =
    seen-body_received limit pos size (x ∷ xs) c h k fits.0 b.1 fits.1
    ∙ sym (
        take_bytes-chunk limit x xs (Partial.body size (take pos c.r_buffer))
          (omega (arith, length-take pos c.r_buffer (omega arith))))

complete-take_bytes :
    (e : Endian) (limit : ℕ) (chunk : Bytes) (c : Connection)
    → IsValid limit c
    → FitsRead c.reading (length chunk)
    → seen (complete e (received chunk) c) ≡ take_bytes limit chunk (view c)
unfolding complete
complete-take_bytes e limit chunk c v fits =
    complete_at-take_bytes e limit c.reading chunk c v.representable v.buffered v.bounded fits

-- However reads that fit cut a stream, a valid connection delivers, and is left with, what the
-- receiver of Stream makes of the same bytes one after the other.
pub complete_all-take_bytes :
    (e : Endian) (limit : ℕ) (chunks : List Bytes) (c : Connection)
    → IsValid limit c
    → Fits e chunks c
    → seen (complete_all e chunks c) ≡ take_bytes limit (flatten chunks) (view c)
unfolding complete_all
complete_all-take_bytes e limit [] c v fits = sym (take_bytes-nil limit (view c))
complete_all-take_bytes e limit (chunk ∷ chunks) c v fits =
    rw
      (
        take_bytes-append limit chunk (flatten chunks) (view c),
        ← complete-take_bytes e limit chunk c v fits.0,
      )
      (ap (λ (q : Partial × List Signal). (q.0, (complete e (received chunk) c).1 ++ q.1))
        (complete_all-take_bytes e limit chunks (complete e (received chunk) c).0
          (complete-IsValid e limit (received chunk) c v fits.0) fits.1))

abbrev IdleAt : Reading → Type 0
IdleAt r = r ≡ header 0 8

-- The connection waits for a header.
abbrev pub IsIdle : Connection → Type 0
IsIdle c = IdleAt c.reading

-- Messages of at most `limit` bytes that are framed one behind the other are delivered by a valid
-- idle connection in order and uncut, the empty ones excepted, however the reads that fit cut the
-- stream; the connection then waits for a header again.
pub complete_all-frames :
    (e : Endian) (limit : ℕ) (chunks ms : List Bytes) (c : Connection)
    → IsValid limit c
    → IsIdle c
    → Fits e chunks c
    → All (λ m. length m ≤ limit) ms
    → flatten chunks ≡ frames ms
    → (view (complete_all e chunks c).0 ≡ Partial.header [])
      × ((complete_all e chunks c).1 ≡ deliveries ms)
complete_all-frames e limit chunks ms c v idle fits small same =
    let all : seen (complete_all e chunks c) ≡ (Partial.header [], deliveries ms) =
      complete_all-take_bytes e limit chunks c v fits
      ∙ rw (same, idle) (take_bytes-frames limit ms small (omega (arith, v.representable))) in
    (ap (λ (q : Partial × List Signal). q.0) all, ap (λ (q : Partial × List Signal). q.1) all)
