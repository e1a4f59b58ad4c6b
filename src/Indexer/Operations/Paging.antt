-- ===== src/Indexer/Operations/Paging.antt =====
-- The pages that `miscEvents` of src/indexer/index.ts follows, and what it collects from them.
use compact_multi_part_event.Prelude.{
  ℕ, zero, suc, ◌+◌, ◌*◌, ◌≤◌, ◌<◌, ◌≡◌, refl, sym, ap, ◌∙◌, Bool, true, false, ◌&&◌, Option, some,
  List, [], ◌∷◌, ◌++◌, append_assoc, map-append, ok_injective, Text, text, length, length-take,
  length-drop, take, drop, drop-drop, take-append-drop, take_all, length-append, ltb, leb, select,
  text_eq, Result, ok, throw, arith, if◌then◌else◌,
}
use compact_multi_part_event.Finalize.{or_some}
use compact_multi_part_event.Process.{Process, continue, pure, fail}
use compact_multi_part_event.Indexer.Types.{
  max_event_page, normalize_hex, RawEvent, IndexedMiscEvent,
}
use compact_multi_part_event.Indexer.Query.{
  Call, Query, DataOf, Reply, outcome, ended, Client, query, contract_events,
}
use compact_multi_part_event.Indexer.Query.Retries.{Transient, query-ended}
use compact_multi_part_event.Indexer.Operations.{
  MiscOptions, normalize_option, misc_events, misc_of, refusal, collect_pages,
}

select-append :
    {A : Type 0} (p : A → Bool) (xs ys : List A) → select p (xs ++ ys) ≡ select p xs ++ select p ys
select-append p [] ys = refl
select-append p (x ∷ xs) ys = cases (p x) refl (select-append p xs ys)
  where
    cases :
        (b : Bool)
        → p x ≡ b
        → select p (xs ++ ys) ≡ select p xs ++ select p ys
        → select p ((x ∷ xs) ++ ys) ≡ select p (x ∷ xs) ++ select p ys
    cases true h rest = rw (select, h) (ap (λ zs. x ∷ zs) rest)
    cases false h rest = rw (select, h) rest

pub misc_of-append : (xs ys : List RawEvent) → misc_of (xs ++ ys) ≡ misc_of xs ++ misc_of ys
unfolding misc_of
misc_of-append xs ys = rw (select-append _ xs ys) (map-append _ _ _)

-- What a step of a chain leaves when the first step has answered.
continue-ok :
    {S D A B : Type 0} (f : A → Process S D B) (x : Result A × S × List D) (a : A)
    → x.0 ≡ ok a
    → (continue f x).0 ≡ (f a x.1).0
continue-ok f (ok b, s, calls) a h = rw (ok_injective h)
continue-ok f (throw e, s, calls) a h = cc

-- What the loop comes to on events, after those that it has collected.
abbrev pub collected :
    ℕ → List IndexedMiscEvent → List RawEvent → Result (Option (List IndexedMiscEvent))
collected most out events =
    if leb (length (out ++ misc_of events)) most
    then ok (some (out ++ misc_of events))
    else throw (refusal most)

module _ (C : Client) where
  open C use {State, fetch, max_attempts}

  -- The query ends in some data within the attempts, perhaps after transient failures.
  pub record Answers (q : Query) (content : DataOf q) (s : State) : Type 0 where
    pub failures : ℕ
    pub before : State
    pub after : State
    pub reply : Reply (DataOf q)
    pub retried : Transient C q failures s before
    pub fetched : fetch q before ≡ (reply, after)
    pub usable : outcome reply ≡ ended (ok content)
    pub within : failures < max_attempts

  query-Answers :
      (q : Query) (content : DataOf q) (s : State)
      → (a : Answers q content s) → (query C q s).0 ≡ ok content
  query-Answers q content s a =
      ap (λ x. x.0)
        (query-ended C q a.failures s a.before a.after a.reply (ok content) a.retried a.fetched
          a.usable a.within)

  module _ (address : Text) (tx : Option Text) (page_size most : ℕ) (all : List RawEvent) where
    -- Every page is the part of the events that it asks for.
    abbrev pub ServesPages : Type 0
    ServesPages =
        (offset : ℕ) (s : State)
        → Answers (contract_events address tx page_size offset) (take page_size (drop offset all)) s

    -- One page, whatever follows it.
    abbrev pub after_page :
        ℕ
        → ℕ
        → List IndexedMiscEvent
        → List RawEvent
        → Process State Call (Option (List IndexedMiscEvent))
    after_page rounds offset out events = elim (ltb most (length (out ++ misc_of events))) [
      | true ↦ fail (refusal most)
      | false ↦ elim (ltb (length events) page_size) [
        | true ↦ pure (some (out ++ misc_of events))
        | false ↦
            collect_pages C rounds address tx page_size most (offset + page_size)
              (out ++ misc_of events)
      ]
    ]

    collect_pages-page :
        (rounds offset : ℕ) (out : List IndexedMiscEvent) (s : State)
        → ServesPages
        → (t : State) × ((collect_pages C (suc rounds) address tx page_size most offset out s).0
            ≡ (after_page rounds offset out (take page_size (drop offset all)) t).0)
    unfolding collect_pages
    collect_pages-page rounds offset out s serves =
        (_, continue-ok _ (query C _ s) _ (query-Answers _ _ s (serves offset s)))

    collected-page :
        (out : List IndexedMiscEvent) (events : List RawEvent)
        → (out ++ misc_of (take page_size events)) ++ misc_of (drop page_size events)
          ≡ out ++ misc_of events
    collected-page out events =
        rw
          (
            append_assoc out _ _,
            sym (misc_of-append (take page_size events) (drop page_size events)),
            take-append-drop page_size events,
          )
          refl

    -- The loop collects the events from its offset on, given rounds for their pages.
    collect_pages-collected :
        (rounds offset : ℕ) (out : List IndexedMiscEvent) (s : State)
        → ServesPages
        → 1 ≤ page_size
        → length (drop offset all) < rounds * page_size
        → (collect_pages C rounds address tx page_size most offset out s).0
          ≡ collected most out (drop offset all)
    collect_pages-collected zero offset out s serves positive enough = absurd (omega arith)
    collect_pages-collected (suc rounds) offset out s serves positive enough =
        let (t, same) = collect_pages-page rounds offset out s serves in
        same
        ∙ cases t (ltb most (length (out ++ misc_of page))) (ltb (length page) page_size) refl refl
            (λ short.
              collect_pages-collected rounds (offset + page_size) (out ++ misc_of page) t serves
                positive short)
      where
        page : List RawEvent
        page = take page_size (drop offset all)

        whole :
            length (out ++ misc_of (drop offset all))
            ≡ length (out ++ misc_of page) + length (misc_of (drop page_size (drop offset all)))
        whole =
            ap length (sym (collected-page out (drop offset all)))
            ∙ length-append (out ++ misc_of page) (misc_of (drop page_size (drop offset all)))

        cases :
            (t : State) (b c : Bool)
            → ltb most (length (out ++ misc_of page)) ≡ b
            → ltb (length page) page_size ≡ c
            → (length (drop (offset + page_size) all) < rounds * page_size
                → (collect_pages C rounds address tx page_size most
                    (offset + page_size)
                    (out ++ misc_of page)
                    t).0
                  ≡ collected most (out ++ misc_of page) (drop (offset + page_size) all))
            → (after_page rounds offset out page t).0 ≡ collected most out (drop offset all)
        cases t true c h k rest =
            let over : most < length (out ++ misc_of (drop offset all)) =
              ground (arith, whole, h) in
            let no : leb (length (out ++ misc_of (drop offset all))) most ≡ false =
              ground (arith, over) in
            rw (after_page, h, no)
        cases t false true h k rest =
            let short : length page < page_size = ground (arith, k) in
            let fits : length (drop offset all) ≤ page_size =
              omega (arith, length-take page_size (drop offset all), short) in
            let same = take_all page_size (drop offset all) fits in
            let few : leb (length (out ++ misc_of page)) most ≡ true = ground (arith, h) in
            rw (after_page, h, k) (rw same (rw (rw same at few) refl))
        cases t false false h k rest =
            let next = drop-drop page_size offset (offset + page_size) all (omega arith) in
            let long : page_size ≤ length page = ground (arith, k) in
            let full = length-take page_size (drop offset all) in
            rw (after_page, h, k)
              (rest (
                  omega (
                    arith,
                    long,
                    full,
                    ap length (sym next),
                    length-drop page_size (drop offset all),
                    enough,
                  ))
                ∙ rw (sym next, collected-page out (drop offset all)) refl)

  -- Given enough rounds, if the indexer answers each page with its part of a list of events within
  -- the attempts, and the page size and the hex arguments are valid, then the misc events that are
  -- collected are exactly those of the list, in order, or an error if they are more than the limit.
  pub misc_events-collected :
      (rounds : ℕ) (address hex : Text) (options : MiscOptions) (tx : Option Text)
      (all : List RawEvent) (s : State)
      → normalize_hex address (text "contract address") ≡ ok hex
      → normalize_option options.transaction_hash (text "transaction hash") ≡ ok tx
      → 1 ≤ or_some options.page_size max_event_page
      → or_some options.page_size max_event_page ≤ max_event_page
      → length all < rounds * or_some options.page_size max_event_page
      → ServesPages hex tx
          (or_some options.page_size max_event_page)
          (or_some options.max_events 4096)
          all
      → (misc_events C rounds address options s).0 ≡ (
          if leb (length (misc_of all)) (or_some options.max_events 4096)
          then ok (some (misc_of all))
          else throw (refusal (or_some options.max_events 4096)))
  unfolding misc_events
  misc_events-collected rounds address hex options tx all s a b low high enough serves =
      let test : (leb 1 (or_some options.page_size max_event_page)
            && leb (or_some options.page_size max_event_page) max_event_page)
          ≡ true =
        ground (arith, low, high) in
      rw (test, a, b) (collect_pages-collected hex tx _ _ all rounds 0 [] s serves low enough)
