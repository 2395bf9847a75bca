-- ===== src/Teletekst/Content/Fuel.antt =====
-- firmware/src/teletekst.c: the loop over a page's content ends.
