-- ===== src/Out/Connection/Handover/Pieces.antt =====
-- What each piece of the writing routine of out/outc.go does with the messages.
use wsbalancer.Prelude.{
  ℕ, ◌+◌, ◌≡◌, refl, ap, sym, ◌∙◌, Bool, true, false, List, [], ◌∷◌, ◌++◌, Option, none, some,
  returns, ◌==◌, length, arith, inl, inr, Option-cases, Bool-cases, UnlessPanics, UnlessPanics-bind,
}
use wsbalancer.Common.{WsMessage, remote_connection_normal_closure}
use wsbalancer.Out.Connection.{Outc, clear_messages}
use wsbalancer.Out.Connection.Loops.{
  WsError, Websocket, incoming, tick, ending, add_cache, notify_frontend, close, write, ping,
}
use wsbalancer.Out.Connection.Handover.{
  Stage, starting, clearing, selecting, storing, leaving, ended, Writer, advance, select,
}
use wsbalancer.Out.Connection.Handover.Messages.{
  times, times-append, data_messages, held, Spare, IsLonger, length_append,
}
use mathlib.Core.Path.{subst}
use mathlib.Core.List.{append-nil}

module _ {K : Type 0} (ws : Websocket K) where
  abbrev pub delivered_of : Option K → List WsMessage
  delivered_of none = []
  delivered_of (some k) = ws.delivered k

  -- The messages that a connection's peer was sent, that are cached, and that its routine holds.
  abbrev pub weight : (WsMessage → Bool) → Outc K → Stage → ℕ
  weight p oc stage = times p (delivered_of oc.con) + times p oc.cache + times p (held stage)

  -- What a piece of the routine does, which has taken `gain` from the channel.
  abbrev pub Moved : List WsMessage → Stage → Outc K → Writer K → Type 0
  Moved gain stage oc w =
      ((p : WsMessage → Bool) → weight p w.oc w.stage ≡ weight p oc stage + times p gain)
      × ((n : ℕ)
          → Spare stage (n + length oc.cache)
          → Spare w.stage (n + length w.oc.cache) × IsLonger oc.cache w.oc.cache)

  Wrote : WsMessage → Outc K → Option WsError × Outc K → Type 0
  Wrote m oc (none, oc') =
      (oc'.cache ≡ oc.cache) × (delivered_of oc'.con ≡ delivered_of oc.con ++ m ∷ [])
  Wrote m oc (some e, oc') = (oc'.cache ≡ oc.cache) × (delivered_of oc'.con ≡ delivered_of oc.con)

  write-Wrote : (m : WsMessage) (oc : Outc K) → UnlessPanics (Wrote m oc) (write ws m oc)
  unfolding write Wrote
  write-Wrote m oc = elim (Option-cases oc.con) [
    | inl e ↦ rw (write, e) tt
    | inr (k, e) ↦ elim (Option-cases (ws.write_message m k).0) [
      | inl good ↦ rw (write, e, good) (refl, ws.write_ok m k good)
      | inr (err, bad) ↦ rw (write, e, bad) (refl, ws.write_failed m k err bad)
    ]
  ]

  ping-Kept :
      (oc : Outc K)
      → UnlessPanics
          (λ t. (t.1.cache ≡ oc.cache) × (delivered_of t.1.con ≡ delivered_of oc.con))
          (ping ws oc)
  unfolding ping
  ping-Kept oc = elim (Option-cases oc.con) [
    | inl e ↦ rw (ping, e) tt
    | inr (k, e) ↦ rw (ping, e) (refl, ws.delivered-ping k)
  ]

  close-Kept :
      (oc : Outc K)
      → UnlessPanics
          (λ oc'. (oc'.cache ≡ oc.cache) × (delivered_of oc'.con ≡ delivered_of oc.con))
          (close ws oc)
  unfolding close
  close-Kept oc = elim (Bool-cases oc.closed) [
    | inl shut ↦ rw (close, shut) (refl, refl)
    | inr live ↦ elim (Option-cases oc.con) [
      | inl e ↦ rw (close, live, e) tt
      | inr (k, e) ↦ rw (close, live, e) (refl, ws.delivered-close k)
    ]
  ]

  notify_keeps :
      (e : WsError) (oc : Outc K)
      → ((notify_frontend e oc).con ≡ oc.con) × ((notify_frontend e oc).cache ≡ oc.cache)
  unfolding notify_frontend
  notify_keeps e oc = ground arith

  unchanged : (c c' : List WsMessage) → c' ≡ c → IsLonger c c'
  unchanged c c' e = record { added = []; longer = e ∙ sym (append-nil c) }

  -- Nothing is gained, and the cache is as before.
  still :
      (stage stage' : Stage) (oc oc' : Outc K)
      → oc'.cache ≡ oc.cache
      → delivered_of oc'.con ≡ delivered_of oc.con
      → held stage' ≡ held stage
      → ((n : ℕ) → Spare stage n → Spare stage' n)
      → Moved [] stage oc (record { oc = oc'; stage = stage' })
  still stage stage' oc oc' same_cache same_sent same_held spare = (
    λ p. omega (arith, ap (times p) same_cache, ap (times p) same_sent, ap (times p) same_held),
    λ n h. (
      subst (λ c. Spare stage' (n + length c)) (sym same_cache) (spare (n + length oc.cache) h),
      unchanged oc.cache oc'.cache same_cache,
    ),
  )

  -- Behind the write of a cached message.
  behind_cached :
      (am : WsMessage) (cached : List WsMessage) (oc : Outc K) (t : Option WsError × Outc K)
      → Wrote am oc t
      → UnlessPanics (Moved [] (clearing (am ∷ cached) false) oc) (elim t.0 [
        | none ↦ returns (record { oc = t.1; stage = clearing cached false })
        | some e ↦
            returns
              (record { oc = notify_frontend e (add_cache am t.1); stage = clearing cached true })
      ])
  unfolding Wrote notify_frontend add_cache
  behind_cached am cached oc (none, oc') h = (
    λ p.
        omega (
          arith,
          ap (times p) h.0,
          ap (times p) h.1,
          times-append p (delivered_of oc.con) (am ∷ []),
        ),
    λ n spare. absurd (omega (arith, spare)),
  )
  behind_cached am cached oc (some e, oc') h =
      let told = notify_keeps e (add_cache am oc') in
      (
        λ p. omega (
          arith,
          ap (times p) h.0,
          ap (times p) h.1,
          ap (λ con. times p (delivered_of con)) told.0,
          ap (times p) told.1,
          times-append p oc'.cache (am ∷ []),
        ),
        λ n spare. absurd (omega (arith, spare)),
      )

  -- Behind the write of a message from the channel.
  behind_write :
      (m : WsMessage) (oc : Outc K) (t : Option WsError × Outc K)
      → Wrote m oc t
      → UnlessPanics (Moved (m ∷ []) selecting oc) (elim t.0 [
        | none ↦ returns (record { oc = t.1; stage = selecting })
        | some e ↦ returns (record { oc = notify_frontend e t.1; stage = storing m })
      ])
  unfolding Wrote
  behind_write m oc (none, oc') h = (
    λ p.
        omega (
          arith,
          ap (times p) h.0,
          ap (times p) h.1,
          times-append p (delivered_of oc.con) (m ∷ []),
        ),
    λ n spare. (omega (arith, ap length h.0, spare), unchanged oc.cache oc'.cache h.0),
  )
  behind_write m oc (some e, oc') h =
      let told = notify_keeps e oc' in
      (
        λ p. omega (
          arith,
          ap (times p) h.0,
          ap (times p) h.1,
          ap (λ con. times p (delivered_of con)) told.0,
          ap (times p) told.1,
        ),
        λ n spare. (
          omega (arith, ap length (told.1 ∙ h.0), spare),
          unchanged oc.cache (notify_frontend e oc').cache (told.1 ∙ h.0),
        ),
      )

  behind_ping :
      (oc : Outc K) (t : Option WsError × Outc K)
      → (t.1.cache ≡ oc.cache) × (delivered_of t.1.con ≡ delivered_of oc.con)
      → UnlessPanics (Moved [] selecting oc) (elim t.0 [
        | none ↦ returns (record { oc = t.1; stage = selecting })
        | some e ↦ returns (record { oc = notify_frontend e t.1; stage = leaving })
      ])
  behind_ping oc (none, oc') h = still selecting selecting oc oc' h.0 h.1 refl (λ n spare. spare)
  behind_ping oc (some e, oc') h =
      let told = notify_keeps e oc' in
      still selecting leaving oc (notify_frontend e oc') (told.1 ∙ h.0)
        (ap delivered_of told.0 ∙ h.1) refl (λ n spare. omega (arith, spare))

  pub advance-Moved :
      (stage : Stage) (oc : Outc K) → UnlessPanics (Moved [] stage oc) (advance ws stage oc)
  unfolding advance clear_messages
  advance-Moved starting oc = (λ p. omega arith, λ n h. absurd (omega (arith, h)))
  advance-Moved (clearing [] true) oc =
      still (clearing [] true) leaving oc oc refl refl refl (λ n h. absurd (omega (arith, h)))
  advance-Moved (clearing [] false) oc =
      still (clearing [] false) selecting oc oc refl refl refl (λ n h. absurd (omega (arith, h)))
  advance-Moved (clearing (am ∷ cached) true) oc =
      (λ p. omega (arith, times-append p oc.cache (am ∷ [])), λ n h. absurd (omega (arith, h)))
  advance-Moved (clearing (am ∷ cached) false) oc =
      UnlessPanics-bind (Wrote am oc) (Moved [] (clearing (am ∷ cached) false) oc) (write ws am oc)
        _ (write-Wrote am oc) (behind_cached am cached oc)
  advance-Moved selecting oc = still selecting selecting oc oc refl refl refl (λ n h. h)
  advance-Moved (storing m) oc = (
    λ p. omega (arith, times-append p oc.cache (m ∷ [])),
    λ n h. (
      omega (arith, h, length_append oc.cache (m ∷ [])),
      record { added = m ∷ []; longer = refl },
    ),
  )
  advance-Moved leaving oc =
      UnlessPanics-bind _ (Moved [] leaving oc) (close ws oc) _ (close-Kept oc)
        (λ oc' h. still leaving ended oc oc' h.0 h.1 refl (λ n spare. spare))
  advance-Moved ended oc = still ended ended oc oc refl refl refl (λ n h. h)

  pub select-Moved :
      (m : WsMessage) (oc : Outc K)
      → UnlessPanics
          (Moved (data_messages (m ∷ [])) selecting oc)
          (select ws (incoming (some m)) oc)
  unfolding select
  select-Moved m oc = elim (Bool-cases (m.message_type == remote_connection_normal_closure)) [
    | inl closure ↦
        rw (select, closure)
          (still selecting leaving oc oc refl refl refl (λ n h. omega (arith, h)))
    | inr other ↦
        rw (select, other)
          (UnlessPanics-bind (Wrote m oc) (Moved (m ∷ []) selecting oc) (write ws m oc) _
            (write-Wrote m oc) (behind_write m oc))
  ]

  pub tick-Moved : (oc : Outc K) → UnlessPanics (Moved [] selecting oc) (select ws tick oc)
  unfolding select
  tick-Moved oc =
      UnlessPanics-bind _ (Moved [] selecting oc) (ping ws oc) _ (ping-Kept oc) (behind_ping oc)

  pub stop-Moved : (oc : Outc K) → UnlessPanics (Moved [] selecting oc) (select ws ending oc)
  unfolding select
  stop-Moved oc = still selecting leaving oc oc refl refl refl (λ n h. omega (arith, h))
