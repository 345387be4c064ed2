-- ===== src/Poller/Laws.antt =====
-- Which devices a round of polling (apps/api/src/lib/device-poller.ts) leaves alone.
