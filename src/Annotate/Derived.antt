-- ===== src/Annotate/Derived.antt =====
-- sc-capture/internal/annotate/derived.go: the markers that the decoded traffic causes. Whether the
-- log takes the line with a number is the parameter `io`, a write and a sync.
pub mod Once
use star_konflict.Base.{
  ℕ, zero, suc, ◌+◌, Bool, true, false, not, ◌&&◌, List, [], ◌∷◌, ◌++◌, Bytes, text, length, drop,
  if◌then◌else◌, ltb, map,
}
use star_konflict.Base.Decimal.{decimal, itoa}
use star_konflict.Base.Int.{ℤ}
use star_konflict.Scproto.Tables.{Element}
use star_konflict.Decode.Record.{Handoff}
use star_konflict.Decode.Pipeline.{Stats}
use star_konflict.Annotate.{Beacon, Marker, stamp, next_seq, kind_derived}

-- The bytes of a dash between two blanks.
abbrev dash : Bytes
dash = 32 ∷ 226 ∷ 128 ∷ 148 ∷ 32 ∷ []

unfoldable pub handoff_label : Handoff → Bytes
handoff_label h =
    text "dedicated-server handoff to "
    ++ (h.addr
        ++ (b':'
            ∷ (decimal h.port
                ++ (text ", zone "
                    ++ (itoa h.zone_id ++ (dash ++ text "in-match traffic starts here"))))))

unfoldable pub novel_label : Element → Bytes
novel_label e =
    text "novel "
    ++ (e.kind
        ++ (text " id "
            ++ (decimal e.id
                ++ (text " observed" ++ (dash ++ text "not in this build's element tables")))))

unfoldable pub desync_label : ℕ → Bytes
desync_label n =
    text "stream desync ("
    ++ (decimal n
        ++ (text " total)" ++ (dash ++ text "bytes from here on are journaled but not decoded")))

unfoldable pub credential_label : Bytes
credential_label =
    text "authentication traffic observed"
    ++ (dash ++ text "this session contains credential material")

pub record Deriver : Type 0 where
  pub beacon : Beacon
  pub seen_handoffs : ℕ
  pub seen_novel : ℕ
  pub seen_desyncs : ℕ
  pub credentialled : Bool

unfoldable pub new_deriver : Beacon → Deriver
new_deriver b = record {
  beacon = b;
  seen_handoffs = 0;
  seen_novel = 0;
  seen_desyncs = 0;
  credentialled = false;
}

module _ (format_time : ℕ → Bytes) (io : ℤ → Bool × Bool) (wall : ℕ) (mono : ℤ) where
  -- The closure `stamp`, on the beacon and the markers stamped so far.
  unfoldable pub noted : List Marker → Beacon × Marker × Bool → Beacon × List Marker
  noted ms (b, m, fine) = (b, if fine then ms ++ m ∷ [] else ms)

  unfoldable pub stamp_label : Beacon × List Marker → Bytes → Beacon × List Marker
  stamp_label (b, ms) label =
      noted ms (stamp format_time b kind_derived label wall mono (io (next_seq b.seq)))

  -- A loop over what is new of a list.
  unfoldable pub stamp_labels : Beacon × List Marker → List Bytes → Beacon × List Marker
  stamp_labels r [] = r
  stamp_labels r (l ∷ ls) = stamp_labels (stamp_label r l) ls

  unfoldable pub observe : Deriver → Stats → Deriver × List Marker
  observe d st =
      let r = stamp_labels (d.beacon, []) (map handoff_label (drop d.seen_handoffs st.handoffs)) in
      let s = stamp_labels r (map novel_label (drop d.seen_novel st.novel)) in
      let worse = ltb d.seen_desyncs st.desyncs in
      let t = if worse then stamp_label s (desync_label st.desyncs) else s in
      let first = st.credentials_seen && not d.credentialled in
      let u = if first then stamp_label t credential_label else t in
      (
        record {
          beacon = u.0;
          seen_handoffs = length st.handoffs;
          seen_novel = length st.novel;
          seen_desyncs = if worse then st.desyncs else d.seen_desyncs;
          credentialled = if first then true else d.credentialled;
        },
        u.1,
      )
