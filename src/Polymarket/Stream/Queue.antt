-- ===== src/Polymarket/Stream/Queue.antt =====
-- The events of the data stream (src/adapter/outbound/polymarket/stream.rs), in their order.
use edgelord.Common.{
  ℕ, zero, suc, ◌≤◌, length, ◌≡◌, refl, ◌∙◌, ap, true, false, List, [], ◌∷◌, ◌++◌, Option, none,
  some, String, Option-cases, inl, inr, string_eq, arith, ok,
}
use edgelord.Exchange.Event.{MarketEvent, disconnected}
use edgelord.Polymarket.Stream.{
  PolymarketBookMessage, PolymarketWsMessage, Frame, text, ping, close, other, failure,
  PolymarketDataStream, pop, next_event, receive, snapshot, books_of, reason_or_empty, connect,
}

abbrev pub head? : {A : Type 0} → List A → Option A
head? [] = none
head? (a ∷ more) = some a

abbrev pub tail : {A : Type 0} → List A → List A
tail [] = []
tail (a ∷ more) = more

module _ {D : Type 0} (parse_decimal : String → Option D) where
  -- The books of a message, the last first.
  abbrev pub last_first : List PolymarketBookMessage → List (MarketEvent D)
  last_first [] = []
  last_first (m ∷ ms) = last_first ms ++ (snapshot parse_decimal m ∷ [])

  popped : Option (PolymarketBookMessage × List PolymarketBookMessage) → List (MarketEvent D)
  popped none = []
  popped (some (m, rest)) = snapshot parse_decimal m ∷ last_first rest

  last_first-pop : (ms : List PolymarketBookMessage) → last_first ms ≡ popped (pop ms)
  unfolding pop popped
  last_first-pop [] = refl
  last_first-pop (m ∷ ms) = ground (arith, last_first-pop ms)

module _ {D : Type 0} (parse_decimal : String → Option D)
    (from_str : String → Option PolymarketWsMessage) where
  abbrev pub events_of : Frame → List (MarketEvent D)
  events_of (text t) = last_first parse_decimal (books_of (from_str t))
  events_of (ping true) = []
  events_of (ping false) = disconnected "Failed to send pong" ∷ []
  events_of (close reason) = disconnected (reason_or_empty reason) ∷ []
  events_of other = []
  events_of (failure e) = disconnected e ∷ []

  abbrev pub all_events : List Frame → List (MarketEvent D)
  all_events [] = []
  all_events (f ∷ frames) = events_of f ++ all_events frames

  abbrev pub from_socket : Option (List Frame) → List (MarketEvent D)
  from_socket none = []
  from_socket (some frames) = all_events frames

  abbrev pub to_come : PolymarketDataStream → List (MarketEvent D)
  to_come s = last_first parse_decimal s.pending_books ++ from_socket s.ws

  receive-queue :
      (frames : List Frame)
      → ((receive parse_decimal from_str frames).0 ≡ head? (all_events frames))
        × (to_come (receive parse_decimal from_str frames).1 ≡ tail (all_events frames))
  unfolding receive popped
  receive-queue [] = (refl, refl)
  receive-queue (text t ∷ frames) =
      ground (arith, receive-queue frames, last_first-pop parse_decimal (books_of (from_str t)))
  receive-queue (ping true ∷ frames) = receive-queue frames
  receive-queue (ping false ∷ frames) = (refl, refl)
  receive-queue (close reason ∷ frames) = (refl, refl)
  receive-queue (other ∷ frames) = receive-queue frames
  receive-queue (failure e ∷ frames) = (refl, refl)

  -- The stream is a queue of events: those of the books that are pending, the last first, then those
  -- of each frame in turn. `next_event` takes the first of them, and has none only when none are left.
  pub next_event-queue :
      (s : PolymarketDataStream)
      → ((next_event parse_decimal from_str s).0 ≡ head? (to_come s))
        × (to_come (next_event parse_decimal from_str s).1 ≡ tail (to_come s))
  unfolding next_event popped
  next_event-queue s = elim (Option-cases s.ws) [
    | inl e ↦ ground (arith, last_first-pop parse_decimal s.pending_books)
    | inr (frames, e) ↦
        ground (arith, last_first-pop parse_decimal s.pending_books, receive-queue frames)
  ]

  -- A number of calls of `next_event`, and what they deliver.
  unfoldable pub deliver : ℕ → PolymarketDataStream → List (MarketEvent D)
  deliver zero s = []
  deliver (suc n) s =
      let (event, t) = next_event parse_decimal from_str s in
      elim event [ none ↦ [] | some e ↦ e ∷ deliver n t ]

  deliver_queue :
      (n : ℕ) (es : List (MarketEvent D)) (s : PolymarketDataStream)
      → to_come s ≡ es
      → length es ≤ n
      → deliver n s ≡ es
  unfolding deliver
  deliver_queue zero [] s e h = refl
  deliver_queue zero (x ∷ es) s e h = absurd (omega arith)
  deliver_queue (suc n) [] s e h =
      let (first, rest) = next_event-queue s in
      let over : (next_event parse_decimal from_str s).0 ≡ none = first ∙ ap head? e in
      rw (over, deliver)
  deliver_queue (suc n) (x ∷ es) s e h =
      let (first, rest) = next_event-queue s in
      let here : (next_event parse_decimal from_str s).0 ≡ some x = first ∙ ap head? e in
      let later =
        deliver_queue n es (next_event parse_decimal from_str s).1 (rest ∙ ap tail e)
          (omega arith) in
      rw (here, deliver) (ap (◌∷◌ x) later)

  -- As many calls as there are events to come, or more, deliver exactly these, in their order; after a
  -- new connection these are the books that were pending from the old one, the last first, before
  -- those of the new frames.
  pub deliver-connect :
      (frames : List Frame) (n : ℕ) (s : PolymarketDataStream)
      → length (last_first parse_decimal s.pending_books ++ all_events frames) ≤ n
      → deliver n (connect (ok frames) s).1
        ≡ last_first parse_decimal s.pending_books ++ all_events frames
  unfolding connect
  deliver-connect frames n s h = deliver_queue n _ (connect (ok frames) s).1 refl h
