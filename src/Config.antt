-- ===== src/Config.antt =====
-- hub/configutils: the segments of a cluster, the files that keep them, and the reader of those files.
pub mod Segment
pub mod Reader
