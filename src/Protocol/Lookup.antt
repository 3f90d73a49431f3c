-- ===== src/Protocol/Lookup.antt =====
-- Looking a message up by the number that the agent sees (`getMessageIdBySeq`, `getRoutingBySeq`,
-- `container/agent-runner/src/db/messages-out.ts`).
use lfontes_nanoclaw.Prelude.{
  ◌==◌, ◌===◌, All, In, All-In, In-map, first, ℕ, ◌%◌, ◌≡◌, refl, ◌≢◌, inl, inr, none, some, List,
  [], ◌∷◌, map, arith,
}
use lfontes_nanoclaw.SessionDb.{Delivered, MessageIn, InDb, MessageOut, OutDb}
use lfontes_nanoclaw.Container.MessagesOut.{
  get_message_id_by_seq, platform_id_or, get_routing_by_seq,
}
use lfontes_nanoclaw.Protocol.Seq.{Distinct, AreSeparate}

first-seq_inbound :
    (rows : List MessageIn) (m : MessageIn)
    → Distinct (map (λ (r : MessageIn). r.seq) rows)
    → In m rows
    → first (λ (r : MessageIn). r.seq == m.seq) rows ≡ some m
unfolding first
first-seq_inbound [] m d k = absurd k
first-seq_inbound (x ∷ rows) m d (inl e) = rw (← e) (ground arith)
first-seq_inbound (x ∷ rows) m d (inr k) =
    let apart =
      All-In (λ y. x.seq ≢ y) (map (λ (r : MessageIn). r.seq) rows) m.seq d.0
        (In-map (λ (r : MessageIn). r.seq) rows m k) in
    ground (arith, first-seq_inbound rows m d.1 k)

first-seq_outbound :
    (rows : List MessageOut) (m : MessageOut)
    → Distinct (map (λ (r : MessageOut). r.seq) rows)
    → In m rows
    → first (λ (r : MessageOut). r.seq == m.seq) rows ≡ some m
unfolding first
first-seq_outbound [] m d k = absurd k
first-seq_outbound (x ∷ rows) m d (inl e) = rw (← e) (ground arith)
first-seq_outbound (x ∷ rows) m d (inr k) =
    let apart =
      All-In (λ y. x.seq ≢ y) (map (λ (r : MessageOut). r.seq) rows) m.seq d.0
        (In-map (λ (r : MessageOut). r.seq) rows m k) in
    ground (arith, first-seq_outbound rows m d.1 k)

no_even_in :
    (rows : List MessageIn) (s : ℕ)
    → s % 2 ≡ 1
    → All (λ x. x % 2 ≡ 0) (map (λ (r : MessageIn). r.seq) rows)
    → first (λ (r : MessageIn). r.seq == s) rows ≡ none
unfolding first
no_even_in [] s p h = refl
no_even_in (x ∷ rows) s p h = ground (arith, no_even_in rows s p h.1)

-- Where the numbers are apart, an inbound message is found by its number, and so are its routing
-- fields.
pub lookup_inbound :
    (i : InDb) (o : OutDb) (m : MessageIn)
    → AreSeparate i o
    → In m i.messages_in
    → (get_message_id_by_seq i o m.seq ≡ some m.id)
      × (get_routing_by_seq i o m.seq ≡ some (m.channel_type, m.platform_id, m.thread_id))
unfolding get_message_id_by_seq get_routing_by_seq
lookup_inbound i o m h k = rw (first-seq_inbound i.messages_in m h.distinct_in k) (refl, refl)

-- Where the numbers are apart, the routing fields found for an outbound message's number are its
-- own, and the id found is the platform's if the message was delivered under one, else its own.
pub lookup_outbound :
    (i : InDb) (o : OutDb) (m : MessageOut)
    → AreSeparate i o
    → In m o.messages_out
    → (get_message_id_by_seq i o m.seq
        ≡ some (
            platform_id_or m.id (first (λ (d : Delivered). d.message_out_id === m.id) i.delivered)))
      × (get_routing_by_seq i o m.seq ≡ some (m.channel_type, m.platform_id, m.thread_id))
unfolding get_message_id_by_seq get_routing_by_seq
lookup_outbound i o m h k =
    rw
      (
        no_even_in i.messages_in m.seq
            (All-In (λ s. s % 2 ≡ 1) _ m.seq h.odd (In-map _ o.messages_out m k)) h.even,
        first-seq_outbound o.messages_out m h.distinct_out k,
      )
      (refl, refl)
