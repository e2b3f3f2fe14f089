-- ===== src/Config/Reader/Laws.antt =====
-- hub/configutils/config_reader.go: the answers of a reader.
use gpupgrade.Base.{
  String, int_eq, false, ◌≡◌, refl, none, some, List, [], ◌∷◌, arith, ◌==◌, ==_iff, string_eq,
  if◌then◌else◌, any,
}
use gpupgrade.System.{FilePath, ok, World, read_content, read_file_calm}
use gpupgrade.Config.Segment.{Segment, ClusterConfig, Codec, times}
use gpupgrade.Config.Reader.{Reader, hostnames_seen, read}

times-any : (h : String) (l : List String) → any (λ x. x == h) l ≡ false → times h l ≡ 0
times-any h [] e = refl
times-any h (x ∷ l) e = ground (arith, ==_iff x h, ==_iff h x, times-any h l)

-- In what the loop over the segments keeps, a name stands as often as among those seen before if it is
-- one of them, and else once if a segment is on that host and never if none is.
pub hostnames_seen-times :
    (segments : List Segment) (seen : List String) (h : String)
    → times h (hostnames_seen segments seen) ≡ (
        if any (λ x. x == h) seen
        then times h seen
        else if any (λ s. s.hostname == h) segments
        then 1
        else 0)
unfolding hostnames_seen
hostnames_seen-times [] seen h = ground (arith, times-any h seen)
hostnames_seen-times (s ∷ segments) seen h = ground (
  arith,
  ==_iff s.hostname h,
  ==_iff h s.hostname,
  times-any h seen,
  hostnames_seen-times segments seen h,
  hostnames_seen-times segments (s.hostname ∷ seen) h,
)

-- `Read` of a file that decodes.
pub read-ok :
    (json : Codec) (r : Reader) (path : FilePath) (text : String) (c : ClusterConfig) (w : World)
    → w.faults ≡ []
    → r.file_location ≡ some path
    → read_content path w.fs ≡ ok text
    → json.unmarshal text ≡ ok c
    → read json r w ≡ ((none, record r { config = c.seg_config; bin_dir = c.bin_dir }), w)
unfolding read
read-ok json r path text c w calm at found decoded = ground (arith, read_file_calm path w)
