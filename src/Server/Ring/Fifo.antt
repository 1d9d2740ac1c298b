-- ===== src/Server/Ring/Fifo.antt =====
-- The request buffer is a queue of at most `max_requests` requests.
use native.Mathlib.Nat.{mod-eq_of_lt, mod-eq-sub-mod, mod_self}
use ece344_operating_systems.Server.Ring.{Server, server_init, is_full, clear_from, assign}
use ece344_operating_systems.Base.{
  get_elem?, length, ℕ, List, ◌<◌, if◌then◌else◌, ltb, ℤ, ◌+◌, ◌≤◌, ◌≡◌, ◌-◌, ◌%◌, Bool-cases, some,
  negsuc, inl, arith, inr, ◌∙◌, suc, ap, ◌==◌, [], ◌≢◌, ◌++◌, ◌∷◌, zero, length-append, refl, sym,
}
use ece344_operating_systems.Threads.State.{assign_ne, assign_self}

-- The slot that is `i` behind `t` around the buffer.
abbrev pub slot : ℕ → ℕ → ℕ → ℕ
slot m t i = if ltb (t + i) m then t + i else t + i - m

next_slot : (m t : ℕ) → t < m → (t + 1) % m ≡ slot m t 1
next_slot m t h = elim (Bool-cases (ltb (t + 1) m)) [
  | inl lt ↦ rw lt (mod-eq_of_lt (ground arith))
  | inr le ↦ let e : t + 1 ≡ m = ground arith in ap (λ (k : ℕ). k % m) e ∙ mod_self m ∙ ground arith
]

-- How far the head is ahead of the tail.
distance : (m t n : ℕ) → t < m → n < m → (slot m t n + m - t) % m ≡ n
distance m t n h l = elim (Bool-cases (ltb (t + n) m)) [
  | inl lt ↦
      let e : t + n + m - t ≡ n + m = omega arith in
      rw (lt, e)
        (mod-eq-sub-mod {n = n + m} {m = m} (omega arith)
          ∙ ap (λ (k : ℕ). k % m) (omega arith)
          ∙ mod-eq_of_lt l)
  | inr le ↦ let e : t + n - m + m - t ≡ n = ground arith in rw (le, e) (mod-eq_of_lt l)
]

-- The buffer holds the requests `q`, oldest first, in the slots from the tail on, and -1 elsewhere.
pub record Holds (q : List ℤ) (s : Server) : Type 0 where
  pub tail : s.request_tail < s.max_requests
  pub room : length q < s.max_requests
  pub head : s.request_head ≡ slot s.max_requests s.request_tail (length q)
  pub full :
      (i : ℕ)
      → i < length q
      → some (s.conn_buf (slot s.max_requests s.request_tail i)) ≡ get_elem? q i
  pub empty :
      (i : ℕ)
      → length q ≤ i
      → i < s.max_requests
      → s.conn_buf (slot s.max_requests s.request_tail i) ≡ negsuc 0

clear_kept : (n i : ℕ) (buf : ℕ → ℤ) (j : ℕ) → j < i → clear_from n i buf j ≡ buf j
unfolding clear_from
clear_kept zero i buf j h = refl
clear_kept (suc n) i buf j h =
    clear_kept n (i + 1) (assign buf i (negsuc 0)) j (omega arith) ∙ ground arith

cleared : (n i : ℕ) (buf : ℕ → ℤ) (j : ℕ) → i ≤ j → j < i + n → clear_from n i buf j ≡ negsuc 0
unfolding clear_from
cleared zero i buf j a b = absurd (omega arith)
cleared (suc n) i buf j a b = elim (Bool-cases (j == i)) [
  | inl e ↦ clear_kept n (i + 1) (assign buf i (negsuc 0)) j (ground arith) ∙ ground arith
  | inr e ↦ cleared n (i + 1) (assign buf i (negsuc 0)) j (ground arith) (omega arith)
]

pub init-Holds : (nr m c : ℕ) (garbage : ℕ → ℤ) → Holds [] (server_init nr m c garbage)
unfolding server_init
init-Holds nr m c garbage = record {
  tail = omega arith;
  room = omega arith;
  head = ground arith;
  full = λ i h. absurd (omega arith);
  empty = λ i h l.
      ap (clear_from (m + 1) 0 garbage) (ground arith)
      ∙ cleared (m + 1) 0 garbage i (omega arith) (omega (arith, l));
}

-- The test of `server_request` is whether the buffer holds as many requests as it may.
pub full-Holds :
    (q : List ℤ) (s : Server) → Holds q s → is_full s ≡ (length q == s.max_requests - 1)
full-Holds q s h =
    ap (λ (k : ℕ). (k + s.max_requests - s.request_tail) % s.max_requests == s.max_requests - 1)
      h.head
    ∙ ap (λ (k : ℕ). k == s.max_requests - 1)
        (distance s.max_requests s.request_tail (length q) h.tail h.room)

get-append_one :
    (q : List ℤ) (x : ℤ) (i : ℕ)
    → get_elem? (q ++ x ∷ []) i ≡ (if i == length q then some x else get_elem? q i)
get-append_one [] x zero = refl
get-append_one [] x (suc i) = ground arith
get-append_one (y ∷ q) x zero = ground arith
get-append_one (y ∷ q) x (suc i) = get-append_one q x i ∙ ground arith

-- The server with one request more, and with the oldest taken.
abbrev pub with_request : ℤ → Server → Server
with_request fd s = record s {
  conn_buf = assign s.conn_buf s.request_head fd;
  request_head = (s.request_head + 1) % s.max_requests;
}

abbrev pub without_first : Server → Server
without_first s = record s {
  conn_buf = assign s.conn_buf s.request_tail (negsuc 0);
  request_tail = (s.request_tail + 1) % s.max_requests;
}

pub slot_lt : (m t i : ℕ) → t < m → i < m → slot m t i < m
slot_lt m t i h l = ground arith

pub slot_ne : (m t i j : ℕ) → t < m → i < m → j < m → i ≢ j → slot m t i ≢ slot m t j
slot_ne m t i j h k l ne e = ne (ground arith)

slot_next : (m t i : ℕ) → t < m → i + 1 < m → slot m (slot m t 1) i ≡ slot m t (i + 1)
slot_next m t i h l = ground arith

pub with_request-Holds :
    (q : List ℤ) (fd : ℤ) (s : Server)
    → Holds q s
    → length q + 1 < s.max_requests
    → Holds (q ++ fd ∷ []) (with_request fd s)
with_request-Holds q fd s h l =
    let m = s.max_requests in
    let t = s.request_tail in
    let len : length (q ++ fd ∷ []) ≡ length q + 1 = length-append q (fd ∷ []) in
    record {
      tail = h.tail;
      room = ground (arith, len);
      head =
          ap (λ (k : ℕ). (k + 1) % m) h.head
          ∙ next_slot m (slot m t (length q)) (slot_lt m t (length q) h.tail h.room)
          ∙ ground (arith, len, h.tail);
      full = λ i g. elim (Bool-cases (i == length q)) [
        | inl e ↦ ground (arith, h.head, get-append_one q fd i)
        | inr e ↦ ground (
          arith,
          h.head,
          get-append_one q fd i,
          len,
          h.full i,
          slot_ne m t i (length q) h.tail (ground (arith, len)) h.room (ground arith),
        )
      ];
      empty = λ i g k. ground (
        arith,
        len,
        h.head,
        h.empty i,
        slot_ne m t i (length q) h.tail k h.room (omega (arith, len)),
      );
    }

some_inj : (x y : ℤ) → some x ≡ some y → x ≡ y
some_inj x y e = ground arith

shifted :
    (m t i : ℕ) (buf : ℕ → ℤ) (q : List ℤ) (fd : ℤ)
    → slot m (slot m t 1) i ≡ slot m t (i + 1)
    → slot m t 0 ≡ t
    → slot m t (i + 1) ≢ slot m t 0
    → some (buf (slot m t (i + 1))) ≡ get_elem? (fd ∷ q) (i + 1)
    → some (assign buf t (negsuc 0) (slot m (slot m t 1) i)) ≡ get_elem? q i
shifted m t i buf q fd e z ne h =
    let kept : assign buf t (negsuc 0) (slot m t (i + 1)) ≡ buf (slot m t (i + 1)) =
      assign_ne buf t (negsuc 0) (slot m t (i + 1)) (λ k. ne (k ∙ sym z)) in
    let at : i + 1 ≡ suc i = omega arith in
    ap (λ (k : ℕ). some (assign buf t (negsuc 0) k)) e
    ∙ ap some kept
    ∙ h
    ∙ ap (get_elem? (fd ∷ q)) at

emptied :
    (m t i : ℕ) (buf : ℕ → ℤ)
    → t < m
    → i < m
    → slot m t 0 ≡ t
    → (i + 1 < m → buf (slot m t (i + 1)) ≡ negsuc 0)
    → assign buf t (negsuc 0) (slot m (slot m t 1) i) ≡ negsuc 0
emptied m t i buf h l z k = elim (Bool-cases (ltb (i + 1) m)) [
  | inl more ↦
      let lt : i + 1 < m = ground arith in
      ap (assign buf t (negsuc 0)) (slot_next m t i h lt) ∙ ground (arith, k lt)
  | inr last ↦
      let e : slot m (slot m t 1) i ≡ t = ground arith in
      ap (assign buf t (negsuc 0)) e ∙ assign_self buf t (negsuc 0)
]

pub without_first-Holds :
    (q : List ℤ) (fd : ℤ) (s : Server)
    → Holds (fd ∷ q) s
    → (s.conn_buf s.request_tail ≡ fd) × Holds q (without_first s)
without_first-Holds q fd s h =
    let m = s.max_requests in
    let t = s.request_tail in
    let next : (t + 1) % m ≡ slot m t 1 = next_slot m t h.tail in
    let more : length q + 1 < m = omega (arith, h.room) in
    let len : length (fd ∷ q) ≡ length q + 1 = omega arith in
    let zeroth : slot m t 0 ≡ t = ground (arith, h.tail) in
    let first : some (s.conn_buf t) ≡ some fd =
      ap (λ (k : ℕ). some (s.conn_buf k)) (sym zeroth) ∙ h.full 0 (omega arith) in
    (
      some_inj (s.conn_buf t) fd first,
      record {
        tail = rw next (slot_lt m t 1 h.tail (omega (arith, more)));
        room = omega (arith, more);
        head = rw next (h.head ∙ ap (slot m t) len ∙ sym (slot_next m t (length q) h.tail more));
        full = λ i g. rw next (
            let e = slot_next m t i h.tail (omega (arith, more)) in
            let ne : slot m t (i + 1) ≢ slot m t 0 =
              slot_ne m t (i + 1) 0 h.tail (omega (arith, more)) (omega (arith, more))
                (omega arith) in
            shifted m t i s.conn_buf q fd e zeroth ne (h.full (i + 1) (omega arith)));
        empty = λ i g k.
            rw next
              (emptied m t i s.conn_buf h.tail k zeroth (λ l. h.empty (i + 1) (omega arith) l));
      },
    )
