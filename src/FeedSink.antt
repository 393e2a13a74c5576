-- ===== src/FeedSink.antt =====
-- internal/sink/feed: the sink that serves the changes it is given as a feed.
pub mod Store
pub mod First
pub mod Newest
pub mod Written
pub mod Proxy
pub mod Client
pub mod Render
pub mod Serve
pub mod Served
