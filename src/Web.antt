-- ===== src/Web.antt =====
-- web/src: the part of the front end that keeps state of its own.
pub mod Problem
