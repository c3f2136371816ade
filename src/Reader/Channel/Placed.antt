-- ===== src/Reader/Channel/Placed.antt =====
-- reader/channel_reader.go: the position that `Read` gives to a record.
use windns_logtail.Base.{
  Text, ℕ, none, some, Option, List, [], ◌∷◌, ◌++◌, ◌≡◌, refl, ap, ◌∙◌, sym, subst, All, All-append,
}
use windns_logtail.Checkpoint.State.{zero_state}
use windns_logtail.Reader.Channel.Open.{Api, WinEventReader}
use windns_logtail.Reader.Channel.Read.{
  Xml, Record, placed, read_rendered, render_event, read_handles,
}

module _ {Rest W : Type 0} (xml : Xml Rest) (api : Api W) where
  -- The record says where it stands: its channel, number, time, and a bookmark of its handle.
  abbrev pub StandsIn : Text → Record xml api → Type 0
  StandsIn channel r =
      (h : ℕ) × (r.offset ≡ record zero_state {
        name = channel;
        record_number = r.event.record_id;
        timestamp = r.event.system_time;
        bookmark = api.bookmark_of h;
      })

  -- The bookmark of the last record, or `b`.
  abbrev pub end_bookmark : Text → List (Record xml api) → Text
  end_bookmark b [] = b
  end_bookmark b (r ∷ rs) = end_bookmark r.offset.bookmark rs

  end_bookmark-append :
      (b : Text) (rs rest : List (Record xml api))
      → end_bookmark b (rs ++ rest) ≡ end_bookmark (end_bookmark b rs) rest
  end_bookmark-append b [] rest = refl
  end_bookmark-append b (r ∷ rs) rest = end_bookmark-append r.offset.bookmark rs rest

  -- From one reader to the next, with what was read: it is the same channel, every record says
  -- where it stands, and the reader's bookmark is that of the last record.
  pub record IsRead (l : WinEventReader) (r : WinEventReader × List (Record xml api)) : Type 0 where
    pub same_channel : r.0.channel_name ≡ l.channel_name
    pub stand : All (StandsIn l.channel_name) r.1
    pub bookmarked : r.0.state.bookmark ≡ end_bookmark l.state.bookmark r.1

  read_rendered-IsRead :
      (l : WinEventReader) (h : ℕ) (x : ℕ × Text × Option Text)
      → IsRead l (read_rendered xml api l h x)
  unfolding read_rendered placed
  read_rendered-IsRead l h (size, [], some m) = record {
    same_channel = refl;
    stand = tt;
    bookmarked = refl;
  }
  read_rendered-IsRead l h (size, [], none) = record {
    same_channel = refl;
    stand = ((h, refl), tt);
    bookmarked = refl;
  }
  read_rendered-IsRead l h (size, c ∷ x, error) = record {
    same_channel = refl;
    stand = ((h, refl), tt);
    bookmarked = refl;
  }

  -- Whatever the handles render to, the records that `Read` makes of them say where they stand,
  -- and the bookmark from which the reader opens its channel again is that of the last of them.
  read_handles-IsRead : (l : WinEventReader) (hs : List ℕ) → IsRead l (read_handles xml api l hs)
  unfolding read_handles
  read_handles-IsRead l [] = record { same_channel = refl; stand = tt; bookmarked = refl }
  read_handles-IsRead l (h ∷ hs) =
      let one = read_rendered xml api l h (render_event xml api l h) in
      let v = read_rendered-IsRead l h (render_event xml api l h) in
      let more = read_handles xml api one.0 hs in
      let u = read_handles-IsRead one.0 hs in
      record {
        same_channel = u.same_channel ∙ v.same_channel;
        stand =
            All-append _ one.1 more.1 v.stand
              (subst (λ n. All (StandsIn n) more.1) v.same_channel u.stand);
        bookmarked =
            u.bookmarked
            ∙ ap (λ b. end_bookmark b more.1) v.bookmarked
            ∙ sym (end_bookmark-append l.state.bookmark one.1 more.1);
      }
