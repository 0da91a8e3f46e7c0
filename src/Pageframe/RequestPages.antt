-- ===== src/Pageframe/RequestPages.antt =====
-- `pageframe_request_pages`: a run of pages.
pub mod Search
pub mod Outcome
pub mod Next
