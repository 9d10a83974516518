-- ===== src/Http.antt =====
-- apps/http/src: the connections of the web server, in http_factory.c; the request, in
-- http_parser.c; and the hand-over of an accepted connection, in http_accept.c.
pub mod Connection
pub mod Parse
pub mod Request
pub mod Handle
pub mod Accept
mod Release
mod Reach
mod Tests
