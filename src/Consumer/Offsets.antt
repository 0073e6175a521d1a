-- ===== src/Consumer/Offsets.antt =====
-- The committed offset and the messages below it: reflowfy/worker/consumer.py.
use reflowfy.Prelude.{
  ℕ, suc, ◌≤◌, true, false, none, some, List, [], ◌∷◌, ◌++◌, map, ◌≡◌, ◌⊎◌, ◌∙◌, ap, refl, arith,
  inl, inr, Bool-cases, Option-cases, All, All-append, All-imp,
}
use mathlib.Core.Path.{subst}
use mathlib.Core.List.{append_assoc, map-append}
use reflowfy.Json.{Json}
use reflowfy.Json.Dict.{get}
use reflowfy.Consumer.{
  Value, Run, Commit, Message, Fate, Ending, Consumer, Poll, commit_position, commit_fate,
  invalid_fate, is_supported, process_job, process_message, goes_on, handle, consume_until_stopped,
}

-- A message either moves the committed offset behind it, or leaves it.
abbrev Moved : ℕ → ℕ → Fate × ℕ → Type 0
Moved offset committed r = (r.1 ≡ committed) ⊎ ((r.1 ≡ suc offset) × (goes_on r.0 ≡ true))

skip-Moved :
    (c : Commit) (fate : Fate) (offset committed : ℕ)
    → goes_on fate ≡ true
    → Moved offset committed (commit_fate c fate, commit_position c offset committed)
skip-Moved Commit.done fate offset committed h = inr (refl, h)
skip-Moved Commit.rebalanced fate offset committed h = inl refl
skip-Moved Commit.raises fate offset committed h = inl refl

invalid-Moved :
    (c : Commit) (offset committed : ℕ)
    → Moved offset committed (invalid_fate c, commit_position c offset committed)
invalid-Moved Commit.done offset committed = inr (refl, refl)
invalid-Moved Commit.rebalanced offset committed = inl refl
invalid-Moved Commit.raises offset committed = inl refl

job-Moved :
    (m : Message) (r : Run) (committed : ℕ)
    → m.run ≡ r
    → Moved m.offset committed (process_job m committed)
unfolding process_job
job-Moved m (Run.answers success) committed e =
    rw (e, process_job) (skip-Moved m.commit (Fate.job success) m.offset committed refl)
job-Moved m Run.raises committed e = rw (e, process_job) (inl refl)
job-Moved m Run.shut_down committed e = rw (e, process_job) (inl refl)

message-Moved :
    (m : Message) (v : Value) (committed : ℕ)
    → m.value ≡ v
    → Moved m.offset committed (process_message m committed)
unfolding process_message
message-Moved m Value.empty committed e =
    rw (e, process_message) (skip-Moved m.commit Fate.no_job m.offset committed refl)
message-Moved m Value.undecodable committed e =
    rw (e, process_message) (invalid-Moved m.commit m.offset committed)
message-Moved m (Value.decoded (Json.obj fields)) committed e =
    elim (Bool-cases (is_supported (get "schema_version" fields))) [
      | inl s ↦ rw (e, s, process_message) (job-Moved m m.run committed refl)
      | inr s ↦ rw (e, s, process_message) (skip-Moved m.commit Fate.no_job m.offset committed refl)
    ]
message-Moved m (Value.decoded Json.null) committed e =
    rw (e, process_message) (invalid-Moved m.commit m.offset committed)
message-Moved m (Value.decoded (Json.bool b)) committed e =
    rw (e, process_message) (invalid-Moved m.commit m.offset committed)
message-Moved m (Value.decoded (Json.num n)) committed e =
    rw (e, process_message) (invalid-Moved m.commit m.offset committed)
message-Moved m (Value.decoded (Json.float n k)) committed e =
    rw (e, process_message) (invalid-Moved m.commit m.offset committed)
message-Moved m (Value.decoded (Json.str s)) committed e =
    rw (e, process_message) (invalid-Moved m.commit m.offset committed)
message-Moved m (Value.decoded (Json.arr xs)) committed e =
    rw (e, process_message) (invalid-Moved m.commit m.offset committed)

-- The messages that the polls return until a stop is requested.
unfoldable pub messages_of : List Poll → List Message
messages_of [] = []
messages_of (p ∷ polls) =
    let rest = messages_of polls in
    elim p.stop_requested [ true ↦ [] | false ↦ elim p.message [ none ↦ rest | some m ↦ m ∷ rest ] ]

-- The offsets of a partition ascend.
abbrev pub Ascending : ℕ → List Message → Type 0
Ascending n [] = Unit
Ascending n (m ∷ messages) = (n ≤ m.offset) × Ascending (suc m.offset) messages

abbrev pub offset_of : Message → ℕ
offset_of m = m.offset

abbrev pub offset_at : ℕ × Fate → ℕ
offset_at x = x.0

-- Behind some message that has been handled.
abbrev pub Behind : Consumer → Type 0
Behind c =
    (pre : List (ℕ × Fate)) × (x : ℕ × Fate) × (post : List (ℕ × Fate)) × (c.fates
      ≡ pre ++ x ∷ post)
    × (c.committed ≡ suc x.0)
    × (goes_on x.1 ≡ true)

-- A consumer that goes on, at a position `n`.
record Good (k n : ℕ) (c : Consumer) : Type 0 where
  low : k ≤ c.committed
  high : c.committed ≤ n
  fine : All (λ x. goes_on x.1 ≡ true) c.fates
  source : (c.committed ≡ k) ⊎ Behind c

-- A consumer that has ended, or whose polls are over, after the messages that it was to process.
record Result (k : ℕ) (offsets : List ℕ) (r : Ending × Consumer) : Type 0 where
  low : k ≤ r.1.committed
  safe : All (λ x. (r.1.committed ≤ x.0) ⊎ (goes_on x.1 ≡ true)) r.1.fates
  source : (r.1.committed ≡ k) ⊎ Behind r.1
  order :
      (rest : List ℕ) × (map offset_at r.1.fates ++ rest ≡ offsets)
      × ((rest ≡ []) ⊎ (r.0 ≡ Ending.ended))

Good-Result :
    (k n : ℕ) (c : Consumer) (e : Ending)
    → Good k n c
    → Result k (map offset_at c.fates ++ []) (e, c)
Good-Result k n c e g = record {
  low = g.low;
  safe =
      All-imp (λ x. goes_on x.1 ≡ true) (λ x. (c.committed ≤ x.0) ⊎ (goes_on x.1 ≡ true))
        (λ x h. inr h) c.fates g.fine;
  source = g.source;
  order = ([], refl, inl refl);
}

-- The committed offset after one more message.
after-Behind :
    (k : ℕ) (c : Consumer) (m : Message)
    → (c.committed ≡ k) ⊎ Behind c
    → Moved m.offset c.committed (process_message m c.committed)
    → ((handle m c).0.committed ≡ k) ⊎ Behind (handle m c).0
unfolding handle
after-Behind k c m (inl s) (inl h) = inl (h ∙ s)
after-Behind k c m (inr (pre, x, post, e, d, f)) (inl h) = inr (
  pre,
  x,
  post ++ (m.offset, (process_message m c.committed).0) ∷ [],
  ap (λ l. l ++ (m.offset, (process_message m c.committed).0) ∷ []) e
      ∙ append_assoc pre (x ∷ post) ((m.offset, (process_message m c.committed).0) ∷ []),
  h ∙ d,
  f,
)
after-Behind k c m s (inr h) =
    inr (c.fates, (m.offset, (process_message m c.committed).0), [], refl, h.0, h.1)

handled-Good :
    (k n : ℕ) (c : Consumer) (m : Message)
    → Good k n c
    → n ≤ m.offset
    → (handle m c).1 ≡ true
    → Good k (suc m.offset) (handle m c).0
unfolding handle
handled-Good k n c m g le on =
    let moved = message-Moved m m.value c.committed refl in
    record {
      low = elim moved [
        | inl h ↦ omega (arith, h, g.low)
        | inr h ↦ omega (arith, h.0, g.low, g.high)
      ];
      high = elim moved [ inl h ↦ omega (arith, h, g.high) | inr h ↦ omega (arith, h.0) ];
      fine = All-append (λ x. goes_on x.1 ≡ true) c.fates (_ ∷ []) g.fine (on, tt);
      source = after-Behind k c m g.source moved;
    }

handled_order :
    (c : Consumer) (m : Message) (rest : List ℕ)
    → map offset_at (handle m c).0.fates ++ rest ≡ map offset_at c.fates ++ m.offset ∷ rest
unfolding handle
handled_order c m rest =
    let x : ℕ × Fate = (m.offset, (process_message m c.committed).0) in
    ap (λ l. l ++ rest) (map-append offset_at c.fates (x ∷ []))
    ∙ append_assoc (map offset_at c.fates) (m.offset ∷ []) rest

ended-Result :
    (k n : ℕ) (c : Consumer) (m : Message) (rest : List ℕ)
    → Good k n c
    → n ≤ m.offset
    → (handle m c).1 ≡ false
    → Result k (map offset_at c.fates ++ m.offset ∷ rest) (Ending.ended, (handle m c).0)
unfolding handle
ended-Result k n c m rest g le off =
    let moved = message-Moved m m.value c.committed refl in
    let now = process_message m c.committed in
    let kept : now.1 ≡ c.committed = elim moved [ inl h ↦ h | inr h ↦ cc (h.1, off) ] in
    record {
      low = omega (arith, kept, g.low);
      safe =
          All-append (λ x. (now.1 ≤ x.0) ⊎ (goes_on x.1 ≡ true)) c.fates (_ ∷ [])
            (All-imp (λ x. goes_on x.1 ≡ true) (λ x. (now.1 ≤ x.0) ⊎ (goes_on x.1 ≡ true))
              (λ x h. inr h) c.fates g.fine)
            (inl (omega (arith, kept, g.high)), tt);
      source = after-Behind k c m g.source moved;
      order = (rest, handled_order c m rest, inr refl);
    }

loop-Result :
    (k n : ℕ) (polls : List Poll) (c : Consumer)
    → Good k n c
    → Ascending n (messages_of polls)
    → Result k
        (map offset_at c.fates ++ map offset_of (messages_of polls))
        (consume_until_stopped polls c)
unfolding consume_until_stopped messages_of
loop-Result k n [] c g a = Good-Result k n c Ending.running g
loop-Result k n (p ∷ polls) c g a = elim (Bool-cases p.stop_requested) [
  | inl s ↦ simp (s, consume_until_stopped, messages_of) (Good-Result k n c Ending.stopped g)
  | inr s ↦ elim (Option-cases p.message) [
    | inl e ↦
        let a' : Ascending n (messages_of polls) = simp (s, e, messages_of) at a in
        simp (s, e, consume_until_stopped, messages_of) (loop-Result k n polls c g a')
    | inr e ↦
        let m = e.0 in
        let a' : Ascending n (m ∷ messages_of polls) = simp (s, e.1, messages_of) at a in
        let offsets = map offset_of (messages_of polls) in
        elim (Bool-cases (handle m c).1) [
          | inl on ↦
              let next = (handle m c).0 in
              let rest =
                loop-Result k (suc m.offset) polls next (handled-Good k n c m g a'.0 on) a'.1 in
              simp (s, e.1, on, consume_until_stopped, messages_of)
                (subst (λ l. Result k l (consume_until_stopped polls next))
                  (handled_order c m offsets) rest)
          | inr off ↦
              simp (s, e.1, off, consume_until_stopped, messages_of)
                (ended-Result k n c m offsets g a'.0 off)
        ]
  ]
]

-- A consumer that starts at its committed offset processes the messages of its polls in their order,
-- each once: all of them until a stop is requested, or a part of them, and then it has ended. The
-- committed offset never falls; it is the one that the consumer has started with, or right behind a
-- message that it has gone on from; and a message whose processing has ended the consumer, with the
-- process or with an exception, is not below it, so that Kafka delivers the message again. The offsets
-- of the partition ascend.
pub consume_at_least_once :
    (polls : List Poll) (k : ℕ)
    → Ascending k (messages_of polls)
    → let r = consume_until_stopped polls (record { committed = k; fates = [] }) in
      ((rest : List ℕ) × (map offset_at r.1.fates ++ rest ≡ map offset_of (messages_of polls))
        × ((rest ≡ []) ⊎ (r.0 ≡ Ending.ended)))
      × (k ≤ r.1.committed)
      × ((r.1.committed ≡ k) ⊎ Behind r.1)
      × All (λ x. (r.1.committed ≤ x.0) ⊎ (goes_on x.1 ≡ true)) r.1.fates
consume_at_least_once polls k a =
    let r =
      loop-Result k k polls (record { committed = k; fates = [] })
        (record { low = omega arith; high = omega arith; fine = tt; source = inl refl }) a in
    (r.order, r.low, r.source, r.safe)
