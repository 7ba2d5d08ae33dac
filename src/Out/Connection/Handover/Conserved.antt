-- ===== src/Out/Connection/Handover/Conserved.antt =====
-- Where the client's messages are while one connection of out/outc.go hands over to the next.
use wsbalancer.Prelude.{
  Text, ℤ, ℕ, ◌+◌, ◌≤◌, ◌≡◌, refl, ap, sym, ◌∙◌, Bool, List, [], ◌∷◌, ◌++◌, Option, none, some,
  length, arith, of_return,
}
use mathlib.Core.Path.{subst}
use mathlib.Core.List.{append-nil, append_assoc}
use wsbalancer.Common.Header.{Header}
use wsbalancer.Out.Connection.{new_outc}
use wsbalancer.Common.{WsMessage}
use wsbalancer.Out.Connection.Loops.{Websocket}
use wsbalancer.Out.Connection.Handover.{
  Stage, selecting, Writer, Move, takes, ticks, stops, advances, Handover, read_cache, replace,
  Step, first_moves, second_moves, reads, replaces, Reachable, here, sending, onward,
}
use wsbalancer.Out.Connection.Handover.Messages.{
  times, times-append, data_messages, data_messages-append, held, Spare, Spare-fewer, held-Spare,
  IsLonger, length_append,
}
use wsbalancer.Out.Connection.Handover.Pieces.{
  weight, advance-Moved, select-Moved, tick-Moved, stop-Moved,
}

module _ {K : Type 0} (ws : Websocket K) where
  weight_of : (WsMessage → Bool) → Option (Writer K) → ℕ
  weight_of p none = 0
  weight_of p (some w) = weight ws p w.oc w.stage

  -- The messages of the channel and of both connections.
  pub total : (WsMessage → Bool) → Handover K → ℕ
  total p h =
      times p (data_messages h.channel)
      + weight ws p h.first.oc h.first.stage
      + weight_of p h.second

  -- A step of a routine, with what it takes.
  abbrev Went : Writer K → List WsMessage → Writer K → List WsMessage → Type 0
  Went w ms w' ms' =
      ((p : WsMessage → Bool)
        → times p (data_messages ms') + weight ws p w'.oc w'.stage
          ≡ times p (data_messages ms) + weight ws p w.oc w.stage)
      × ((n : ℕ)
          → Spare w.stage (n + length w.oc.cache)
          → Spare w'.stage (n + length w'.oc.cache) × IsLonger w.oc.cache w'.oc.cache)

  Spare-subst :
      (w : Writer K) (stage : Stage)
      → w.stage ≡ stage
      → (n : ℕ) → Spare w.stage (n + length w.oc.cache)
      → Spare stage (n + length w.oc.cache)
  Spare-subst w stage e n spare = subst (λ s. Spare s (n + length w.oc.cache)) e spare

  Move-Went : (w w' : Writer K) (ms ms' : List WsMessage) → Move ws w ms w' ms' → Went w ms w' ms'
  Move-Went w w' (m ∷ _) ms (takes e t) =
      let moved = of_return _ _ w' (select-Moved ws m w.oc) t in
      (
        λ p. omega (
          arith,
          moved.0 p,
          ap (weight ws p w.oc) e,
          ap (times p) (data_messages-append (m ∷ []) ms),
          times-append p (data_messages (m ∷ [])) (data_messages ms),
        ),
        λ n spare. moved.1 n (Spare-subst w selecting e n spare),
      )
  Move-Went w w' ms _ (ticks e t) =
      let moved = of_return _ _ w' (tick-Moved ws w.oc) t in
      (
        λ p. omega (arith, moved.0 p, ap (weight ws p w.oc) e),
        λ n spare. moved.1 n (Spare-subst w selecting e n spare),
      )
  Move-Went w w' ms _ (stops e t) =
      let moved = of_return _ _ w' (stop-Moved ws w.oc) t in
      (
        λ p. omega (arith, moved.0 p, ap (weight ws p w.oc) e),
        λ n spare. moved.1 n (Spare-subst w selecting e n spare),
      )
  Move-Went w w' ms _ (advances t) =
      let moved = of_return _ _ w' (advance-Moved ws w.stage w.oc) t in
      (λ p. omega (arith, moved.0 p), moved.1)

  -- What is lost so far, and what was read of the first cache.
  pub record IsHanding (h : Handover K) (lost : List WsMessage) : Type 0 where
    pub spare : Spare h.first.stage (length lost + length h.first.oc.cache)
    pub early : h.second ≡ none → lost ≡ []
    pub copied :
        (cached : List WsMessage) → h.taking ≡ some cached → IsLonger cached h.first.oc.cache

  abbrev Goes : Handover K → List WsMessage → Handover K → Type 0
  Goes h lost h' =
      (lost' : List WsMessage) × ((p : WsMessage → Bool)
        → total p h' + times p lost' ≡ total p h + times p lost)
      × IsHanding h' lost'

  IsLonger-trans : (c c' c'' : List WsMessage) → IsLonger c c' → IsLonger c' c'' → IsLonger c c''
  IsLonger-trans c c' c'' l l' = record {
    added = l.added ++ l'.added;
    longer = l'.longer ∙ ap (λ xs. xs ++ l'.added) l.longer ∙ append_assoc c l.added l'.added;
  }

  -- The reset of the first cache loses what was added to it behind the read.
  replace-Goes :
      (h : Handover K) (lost cached : List WsMessage) (k : K) (ping_time : ℤ) (id : Text)
      (hdr : Header)
      → h.second ≡ none
      → h.taking ≡ some cached
      → ws.delivered k ≡ []
      → IsHanding h lost
      → Goes h lost (replace cached k ping_time id hdr h)
  unfolding total weight_of replace new_outc
  replace-Goes h lost cached k ping_time id hdr e taken fresh handing =
      let copy = handing.copied cached taken in
      let nothing = handing.early e in
      let size = ap length copy.longer ∙ length_append cached copy.added in
      (
        copy.added,
        λ p. omega (
          arith,
          ap (weight_of p) e,
          ap (times p) fresh,
          ap (times p) nothing,
          ap (times p) copy.longer,
          times-append p cached copy.added,
        ),
        record {
          spare =
              Spare-fewer h.first.stage (length lost + length h.first.oc.cache)
                (length copy.added + 0) (omega (arith, size)) handing.spare;
          early = λ e'. absurd cc;
          copied = λ c e'. absurd cc;
        },
      )

  Step-Goes :
      (h h' : Handover K) (lost : List WsMessage) → Step ws h h' → IsHanding h lost → Goes h lost h'
  unfolding total weight_of read_cache
  Step-Goes h _ lost (first_moves {ms} {w} move) handing =
      let went = Move-Went h.first w h.channel ms move in
      let kept = went.1 (length lost) handing.spare in
      (
        lost,
        λ p. omega (arith, went.0 p),
        record {
          spare = kept.0;
          early = handing.early;
          copied = λ c e. IsLonger-trans c h.first.oc.cache w.oc.cache (handing.copied c e) kept.1;
        },
      )
  Step-Goes h _ lost (second_moves {ms} {v} {w} e move) handing =
      let went = Move-Went v w h.channel ms move in
      (
        lost,
        λ p. omega (arith, went.0 p, ap (weight_of p) e),
        record { spare = handing.spare; early = λ e'. absurd cc; copied = handing.copied },
      )
  Step-Goes h _ lost (reads e free) handing = (
    lost,
    λ p. refl,
    record {
      spare = handing.spare;
      early = handing.early;
      copied = λ c e'.
          let same : h.first.oc.cache ≡ c = cc in
          record { added = []; longer = same ∙ sym (append-nil c) };
    },
  )
  Step-Goes h _ lost (replaces {cached} k ping_time id hdr e taken fresh) handing =
      replace-Goes h lost cached k ping_time id hdr e taken fresh handing

  -- Behind a history in which the client has sent the given messages. The lost ones are those that the
  -- first routine has cached between the read and the reset of `clear`.
  pub record IsRelayed (start : Handover K) (sent : List WsMessage) (h : Handover K) : Type 0 where
    pub lost : List WsMessage
    pub everywhere :
        (p : WsMessage → Bool)
        → total p h + times p lost ≡ total p start + times p (data_messages sent)
    pub early : h.second ≡ none → lost ≡ []
    pub kept_back : length lost + length h.first.oc.cache + length (held h.first.stage) ≤ 1

  abbrev Conserves : Handover K → List WsMessage → Handover K → Type 0
  Conserves start sent h =
      (lost : List WsMessage) × ((p : WsMessage → Bool)
        → total p h + times p lost ≡ total p start + times p (data_messages sent))
      × IsHanding h lost

  Reachable-Conserves :
      (start h : Handover K) (sent : List WsMessage)
      → IsHanding start []
      → Reachable ws start sent h
      → Conserves start sent h
  unfolding total
  Reachable-Conserves start _ _ begin here = ([], λ p. omega arith, begin)
  Reachable-Conserves start _ _ begin (sending {sent} {h} r m) =
      let (lost, same, handing) = Reachable-Conserves start h sent begin r in
      (
        lost,
        λ p. omega (
          arith,
          same p,
          ap (times p) (data_messages-append h.channel (m ∷ [])),
          times-append p (data_messages h.channel) (data_messages (m ∷ [])),
          ap (times p) (data_messages-append sent (m ∷ [])),
          times-append p (data_messages sent) (data_messages (m ∷ [])),
        ),
        record { spare = handing.spare; early = handing.early; copied = handing.copied },
      )
  Reachable-Conserves start _ sent begin (onward {h} {h'} r step) =
      let (lost, same, handing) = Reachable-Conserves start h sent begin r in
      let (lost', same', handing') = Step-Goes h h' lost step handing in
      (lost', λ p. same' p ∙ same p, handing')

  beginning :
      (start : Handover K)
      → start.first.stage ≡ selecting
      → start.first.oc.cache ≡ []
      → start.taking ≡ none
      → IsHanding start []
  beginning start waits nothing free = record {
    spare =
        subst (λ s. Spare s (0 + length start.first.oc.cache)) (sym waits)
          (omega (arith, ap length nothing));
    early = λ e. refl;
    copied = λ c e. absurd cc;
  }

  -- However the routine of a connection, from its `select` on with nothing cached, the routine of the
  -- connection that replaces it, the two accesses of `newOutc` to the old cache, and the client's
  -- messages interleave: every message that there was or that the client has sent is in exactly one
  -- place, in the channel or, sent, cached or about to be cached, at one of the two connections; or it
  -- was lost by the replacement. What is lost, and what the replaced connection still keeps back, is
  -- one message together at most, and before the replacement nothing is lost. No message is made up,
  -- or there twice.
  pub Reachable-IsRelayed :
      (start h : Handover K) (sent : List WsMessage)
      → start.first.stage ≡ selecting
      → start.first.oc.cache ≡ []
      → start.taking ≡ none
      → Reachable ws start sent h
      → IsRelayed start sent h
  Reachable-IsRelayed start h sent waits nothing free r =
      let (lost, same, handing) =
        Reachable-Conserves start h sent (beginning start waits nothing free) r in
      record {
        lost = lost;
        everywhere = same;
        early = handing.early;
        kept_back = held-Spare h.first.stage (length lost + length h.first.oc.cache) handing.spare;
      }
